-- ===== src/Scripts/Aks.antt =====
-- scripts/verify_aks.py: `main`, from the answers of kubectl to the evidence. kubectl, base64, the
-- time and the run of the smoke test with its key are parameters; the file smoke.json that the
-- smoke test writes is left out.
pub mod Readiness
pub mod Replicas
pub mod Verified
use azure_ml_optimization_pl.Base.{
  String, Bool, true, false, not, ◌&&◌, ◌||◌, Option, none, some, List, [], ◌∷◌, if◌then◌else◌, ◌≡◌,
  refl,
}
use azure_ml_optimization_pl.Double.{Double}
use azure_ml_optimization_pl.Errors.{Error, Result, ok, err, other, check, ◌>>=◌}
use azure_ml_optimization_pl.Scripts.Json.{
  Json, number, object, item, elements, is_string, as_number, find_field,
}
use azure_ml_optimization_pl.Scripts.Answers.{any_of, all_of, at_least}

-- The arguments of `get`.
pub data Query : Type 0 where
  nodes deployments runtime_secrets : Query

-- The objects of the file workloads.json.
pub record Node (F : Type 0) : Type 0 where
  pub version : Json F
  pub architecture : Json F

pub record Deployment (F : Type 0) : Type 0 where
  pub name : Json F
  pub desired : Json F
  pub available : Json F

pub record Workloads (F : Type 0) : Type 0 where
  pub checked_at : String
  pub node_list : List (Node F)
  pub deployment_list : List (Deployment F)
  pub end_to_end_smoke_passed : Bool

-- `assert` in front of a result.
abbrev asserted : {A : Type 0} → Bool → Result A → Result A
asserted b r = check (not b) (other "AssertionError") r

module _ {F : Type 0} ⦃d : Double F⦄ where
  -- `value[first][second]`
  unfoldable pub item_in : (first second : String) → Json F → Result (Json F)
  item_in first second v = item first v >>= λ inner. item second inner

  -- `c["type"] == "Ready" and c["status"] == "True"`
  unfoldable pub is_ready : Json F → Result Bool
  is_ready c = item "type" c >>= λ kind.
      if is_string "Ready" kind
      then (item "status" c >>= λ status. ok (is_string "True" status))
      else ok false

  unfoldable pub any_ready : List (Json F) → Result Bool
  any_ready [] = ok false
  any_ready (c ∷ cs) = any_of (is_ready c) (any_ready cs)

  unfoldable pub node_ready : Json F → Result Bool
  node_ready n = item_in "status" "conditions" n >>= λ conditions.
      elements conditions >>= λ list. any_ready list

  unfoldable pub all_ready : List (Json F) → Result Bool
  all_ready [] = ok true
  all_ready (n ∷ ns) = all_of (node_ready n) (all_ready ns)

  unfoldable pub names_of : List (Json F) → Result (List (Json F))
  names_of [] = ok []
  names_of (x ∷ xs) =
      item_in "metadata" "name" x >>= λ name. names_of xs >>= λ names. ok (name ∷ names)

  abbrev is_among : String → List (Json F) → Bool
  is_among s [] = false
  is_among s (v ∷ vs) = is_string s v || is_among s vs

  abbrev is_expected : Json F → Bool
  is_expected v = is_string "mfbo-api" v || is_string "mfbo-worker" v || is_string "mfbo-mlflow" v

  abbrev all_expected : List (Json F) → Bool
  all_expected [] = true
  all_expected (v ∷ vs) = is_expected v && all_expected vs

  -- The equality of the two sets.
  unfoldable pub are_expected : List (Json F) → Bool
  are_expected names =
      all_expected names
      && is_among "mfbo-api" names
      && is_among "mfbo-worker" names
      && is_among "mfbo-mlflow" names

  -- `status.get("availableReplicas", 0)`
  abbrev or_zero : Option (Json F) → Json F
  or_zero none = number (d.literal 0 0)
  or_zero (some v) = v

  abbrev get_available : Json F → Result (Json F)
  get_available (object fs) = ok (or_zero (find_field "availableReplicas" fs))
  get_available _ = err (other "AttributeError")

  unfoldable pub available : Json F → Result (Json F)
  available x = item "status" x >>= λ status. get_available status

  unfoldable pub has_replicas : Json F → Result Bool
  has_replicas x = available x >>= λ there.
      item_in "spec" "replicas" x >>= λ wanted. at_least (as_number there) (as_number wanted)

  unfoldable pub all_available : List (Json F) → Result Bool
  all_available [] = ok true
  all_available (x ∷ xs) = all_of (has_replicas x) (all_available xs)

  unfoldable pub node_summaries : List (Json F) → Result (List (Node F))
  node_summaries [] = ok []
  node_summaries (n ∷ ns) = item_in "status" "nodeInfo" n >>= λ info.
      item "kubeletVersion" info >>= λ version. item "architecture" info >>= λ architecture.
      node_summaries ns >>= λ rest.
      ok (record { version = version; architecture = architecture } ∷ rest)

  unfoldable pub deployment_summaries : List (Json F) → Result (List (Deployment F))
  deployment_summaries [] = ok []
  deployment_summaries (x ∷ xs) = item_in "metadata" "name" x >>= λ name.
      item_in "spec" "replicas" x >>= λ desired. available x >>= λ there.
      deployment_summaries xs >>= λ rest.
      ok (record { name = name; desired = desired; available = there } ∷ rest)

  abbrev is_filled : List (Json F) → Bool
  is_filled [] = false
  is_filled (x ∷ xs) = true

  module _ (get : Query → Result (Json F)) (b64decode : Json F → Result String)
      (smoke_test : (api_key : String) → Result (Unit {0})) where
    -- `get(kind)["items"]`
    unfoldable pub items_of : Query → Result (List (Json F))
    items_of q = get q >>= λ answer. item "items" answer >>= λ items. elements items

    -- The assertions on the cluster.
    unfoldable pub check_cluster : (ns ds : List (Json F)) → Result (Unit {0})
    check_cluster ns ds = asserted (is_filled ns) (
        all_ready ns >>= λ ready. asserted ready (
          names_of ds >>= λ names.
          asserted (are_expected names) (all_available ds >>= λ enough. asserted enough (ok tt))))

    -- The child process gets the key.
    unfoldable pub run_smoke : Result (Unit {0})
    run_smoke = get runtime_secrets >>= λ secret.
        item_in "data" "api-key" secret >>= λ encoded. b64decode encoded >>= λ key. smoke_test key

    unfoldable pub summary : (now : String) → (ns ds : List (Json F)) → Result (Workloads F)
    summary now ns ds = node_summaries ns >>= λ node_list.
        deployment_summaries ds >>= λ deployment_list. ok (record {
          checked_at = now;
          node_list = node_list;
          deployment_list = deployment_list;
          end_to_end_smoke_passed = true;
        })

    -- What is written to workloads.json.
    unfoldable pub main : (now : String) → Result (Workloads F)
    main now = items_of nodes >>= λ ns. items_of deployments >>= λ ds.
        check_cluster ns ds >>= λ u. run_smoke >>= λ u. summary now ns ds
