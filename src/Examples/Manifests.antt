-- ===== src/Examples/Manifests.antt =====
-- Substitutions that are accepted.
use azure_ml_optimization_pl.Base.{
  replace, replace_from, starts_with, ◌≢◌, true, String, str_eq, ◌≡◌, refl, none, some, All,
  if◌then◌else◌,
}
use azure_ml_optimization_pl.Errors.{Result, ok, err, other}
use azure_ml_optimization_pl.Scripts.Render.{
  Url, validate_substitutions, check_value, check_kind, kind_of, is_refused, matches_host,
  matches_image, matches_vault, matches_end, is_space, is_letter, is_alphanumeric,
  is_image_character, is_name_character, is_host_character,
}
use azure_ml_optimization_pl.Scripts.Render.Safe.{IsSafe}
use azure_ml_optimization_pl.Scripts.Render.Template.{
  Arguments, printed, substitutions, replace_all, resolved, find_markers, match_marker, match_end,
  is_marker_character, main,
}
use azure_ml_optimization_pl.Scripts.Render.Markers.{is_name, main-IsRendered}
use Prim.Native.String.{◌++◌}

abbrev one_uuid : String → Result (Unit {0})
one_uuid s =
    if str_eq s "6f1c1a52-0f6e-4c58-9d3b-6a5f5a0c8a11"
    then ok tt
    else err (other "badly formed hexadecimal UUID string")

abbrev account : Url
account = record {
  scheme = "https";
  hostname = some "a.blob.core.windows.net";
  username = none;
  password = none;
  query = "";
  fragment = "";
  path = "/";
  netloc = "a.blob.core.windows.net";
}

abbrev one_url : String → Result Url
one_url s = ok account

-- The arguments of one run, and a template with two markers.
abbrev arguments : Arguments
arguments = record {
  api_image = "registry.io/api:1.0";
  worker_image = "registry.io/worker:1.0";
  tracking_image = "registry.io/mlflow:1.0";
  storage_url = "https://a.blob.core.windows.net/";
  client_id = "6f1c1a52-0f6e-4c58-9d3b-6a5f5a0c8a11";
  tenant_id = "6f1c1a52-0f6e-4c58-9d3b-6a5f5a0c8a11";
  key_vault = "kv-mfbo-1";
  template = "k8s/azure.yaml";
  output = none;
}

abbrev read_template : (path : String) → Result String
read_template path = ok "image: __API_IMAGE__ vault: __KEY_VAULT_NAME__"

main_runs :
    main one_uuid one_url read_template arguments
    ≡ ok (printed "image: registry.io/api:1.0 vault: kv-mfbo-1")
unfolding main substitutions replace_all replace replace_from resolved find_markers match_marker
    match_end is_marker_character starts_with validate_substitutions check_value check_kind kind_of
    is_refused matches_host matches_image matches_vault matches_end is_space is_letter
    is_alphanumeric is_image_character is_name_character is_host_character
main_runs = refl

main-IsRendered_example :
    All (λ (marker, value). IsSafe one_uuid one_url marker value) (substitutions arguments)
    × ((template : String) × (read_template "k8s/azure.yaml" ≡ ok template)
        × ("image: registry.io/api:1.0 vault: kv-mfbo-1"
            ≡ replace_all (substitutions arguments) template))
    × ((before name after : String)
        → name ≢ ""
        → is_name name ≡ true
        → "image: registry.io/api:1.0 vault: kv-mfbo-1"
          ≢ before ++ ("__" ++ (name ++ ("__" ++ after))))
main-IsRendered_example = main-IsRendered one_uuid one_url read_template arguments _ main_runs
