-- ===== src/Scripts/Render/Template.antt =====
-- `main` of scripts/render_k8s.py: the values go into the template. The read of the template is a
-- parameter.
use Prim.Native.Char.{code}
use Prim.Native.String.{◌++◌}
use azure_ml_optimization_pl.Base.{
  ◌≡◌, refl, ℕ, zero, suc, ◌-◌, String, Bool, true, false, ◌&&◌, ◌||◌, leb, ◌==◌, Option, none,
  some, List, [], ◌∷◌, replace, starts_with, if◌then◌else◌,
}
use azure_ml_optimization_pl.Errors.{Result, ok, other, check, ◌>>=◌}
use azure_ml_optimization_pl.Telemetry.{first_characters}
use azure_ml_optimization_pl.Scripts.Render.{Url, validate_substitutions}

-- The values of the command line.
pub record Arguments : Type 0 where
  pub api_image : String
  pub worker_image : String
  pub tracking_image : String
  pub storage_url : String
  pub client_id : String
  pub tenant_id : String
  pub key_vault : String
  pub template : String
  pub output : Option String

unfoldable pub substitutions : Arguments → List (String × String)
substitutions args =
    ("__API_IMAGE__", args.api_image)
    ∷ ("__WORKER_IMAGE__", args.worker_image)
    ∷ ("__TRACKING_IMAGE__", args.tracking_image)
    ∷ ("__AZURE_STORAGE_ACCOUNT_URL__", args.storage_url)
    ∷ ("__AZURE_CLIENT_ID__", args.client_id)
    ∷ ("__AZURE_TENANT_ID__", args.tenant_id)
    ∷ ("__KEY_VAULT_NAME__", args.key_vault)
    ∷ []

unfoldable pub replace_all : List (String × String) → String → String
replace_all [] text = text
replace_all ((marker, value) ∷ values) text = replace_all values (replace text marker value)

-- [A-Z_]
unfoldable pub is_marker_character : ℕ → Bool
is_marker_character c = (leb 65 c && leb c 90) || c == 95

-- The number of characters of the longest match of [A-Z_]*__ at the start of a text, and then of
-- __[A-Z_]+__.
abbrev pub one_more : Option ℕ → (or_else : Bool) → Option ℕ
one_more (some n) e = some (suc n)
one_more none true = some 2
one_more none false = none

unfoldable pub match_end : String → Option ℕ
match_end String.[] = none
match_end (String.◌∷◌ c s) =
    let longer = match_end s in
    if is_marker_character (code c)
    then one_more longer (starts_with (String.◌∷◌ c s) "__")
    else none

abbrev pub three_more : Option ℕ → Option ℕ
three_more none = none
three_more (some n) = some (suc (suc (suc n)))

unfoldable pub match_marker : String → Option ℕ
match_marker (String.◌∷◌ a (String.◌∷◌ b (String.◌∷◌ c s))) =
    if code a == 95 && code b == 95 && is_marker_character (code c)
    then three_more (match_end s)
    else none
match_marker _ = none

-- `re.findall`: the matches from the left; `skipped` characters are still part of the last one.
unfoldable pub find_markers : (skipped : ℕ) → String → List String
find_markers skipped String.[] = []
find_markers (suc n) (String.◌∷◌ c s) = find_markers n s
find_markers zero (String.◌∷◌ c s) = elim (match_marker (String.◌∷◌ c s)) [
  | some n ↦ first_characters n (String.◌∷◌ c s) ∷ find_markers (n - 1) s
  | none ↦ find_markers 0 s
]

-- The text of a list in the error's message. A marker has no quote.
abbrev comma_separated : List String → String
comma_separated [] = ""
comma_separated (x ∷ []) = "'" ++ (x ++ "'")
comma_separated (x ∷ y ∷ xs) = "'" ++ (x ++ ("', " ++ comma_separated (y ∷ xs)))

abbrev pub is_any : List String → Bool
is_any [] = false
is_any (x ∷ xs) = true

-- What the script leaves: a file, or the text on the standard output.
pub data Output : Type 0 where
  written : (path text : String) → Output
  printed : (text : String) → Output

abbrev pub output_of : Option String → String → Output
output_of none text = printed text
output_of (some path) text = written path text

unfoldable pub resolved : String → Result String
resolved text =
    let unresolved = find_markers 0 text in
    check (is_any unresolved)
      (other ("unresolved template markers: [" ++ (comma_separated unresolved ++ "]"))) (ok text)

module _ (uuid : String → Result (Unit {0})) (urlsplit : String → Result Url)
    (read_text : (path : String) → Result String) where
  unfoldable pub main : Arguments → Result Output
  main args = validate_substitutions uuid urlsplit (substitutions args) >>= λ u.
      read_text args.template >>= λ template.
      resolved (replace_all (substitutions args) template) >>= λ rendered.
      ok (output_of args.output rendered)

find_test : find_markers 0 "a: __A_B____C__ b: __d__" ≡ "__A_B____C__" ∷ []
unfolding find_markers match_marker match_end is_marker_character starts_with
find_test = refl
