-- ===== src/Scripts/Render.antt =====
-- scripts/render_k8s.py: `validate_substitutions`. The parsers of the standard library's `uuid` and
-- `urllib` are parameters. A text is checked by its code points.
pub mod Safe
pub mod Template
pub mod Markers
use Prim.Native.Char.{code}
use Prim.Native.String.{◌++◌}
use azure_ml_optimization_pl.Base.{
  ℕ, zero, suc, String, str_eq, Bool, true, false, not, ◌&&◌, ◌||◌, Option, none, some, List, [],
  ◌∷◌, leb, ◌==◌, length, every, if◌then◌else◌,
}
use azure_ml_optimization_pl.Errors.{Error, Result, ok, err, other, check, ◌>>=◌}

abbrev pub codes : String → List ℕ
codes String.[] = []
codes (String.◌∷◌ c s) = code c ∷ codes s

abbrev pub any : (ℕ → Bool) → List ℕ → Bool
any p [] = false
any p (c ∷ cs) = p c || any p cs

abbrev between : ℕ → ℕ → ℕ → Bool
between low high c = leb low c && leb c high

-- `str.isspace` of a character.
unfoldable pub is_space : ℕ → Bool
is_space c =
    between 9 13 c
    || between 28 32 c
    || c == 133
    || c == 160
    || c == 5760
    || between 8192 8202 c
    || c == 8232
    || c == 8233
    || c == 8239
    || c == 8287
    || c == 12288

-- [a-zA-Z] and [a-zA-Z0-9]
unfoldable pub is_letter : ℕ → Bool
is_letter c = between 97 122 c || between 65 90 c

unfoldable pub is_alphanumeric : ℕ → Bool
is_alphanumeric c = is_letter c || between 48 57 c

-- [a-zA-Z0-9._:/@-], [a-zA-Z0-9-] and [a-zA-Z0-9.-]
unfoldable pub is_image_character : ℕ → Bool
is_image_character c =
    is_alphanumeric c || c == 46 || c == 95 || c == 58 || c == 47 || c == 64 || c == 45

unfoldable pub is_name_character : ℕ → Bool
is_name_character c = is_alphanumeric c || c == 45

unfoldable pub is_host_character : ℕ → Bool
is_host_character c = is_alphanumeric c || c == 46 || c == 45

-- The `fullmatch` of [a-zA-Z0-9][a-zA-Z0-9._:/@-]{0,511}
unfoldable pub matches_image : List ℕ → Bool
matches_image [] = false
matches_image (c ∷ cs) = is_alphanumeric c && every is_image_character cs && leb (length cs) 511

-- What is left of [a-zA-Z0-9-]{least,most}[a-zA-Z0-9] from here: the last character is the one that
-- is not repeated.
unfoldable pub matches_end : (least most : ℕ) → List ℕ → Bool
matches_end least most [] = false
matches_end least most (c ∷ []) = leb least 0 && is_alphanumeric c
matches_end least zero (c ∷ b ∷ cs) = false
matches_end zero (suc most) (c ∷ b ∷ cs) = is_name_character c && matches_end zero most (b ∷ cs)
matches_end (suc least) (suc most) (c ∷ b ∷ cs) =
    is_name_character c && matches_end least most (b ∷ cs)

-- The `fullmatch` of [a-zA-Z][a-zA-Z0-9-]{1,22}[a-zA-Z0-9]
unfoldable pub matches_vault : List ℕ → Bool
matches_vault [] = false
matches_vault (c ∷ cs) = is_letter c && matches_end 1 22 cs

-- The `fullmatch` of [a-zA-Z0-9.-]+
unfoldable pub matches_host : List ℕ → Bool
matches_host [] = false
matches_host (c ∷ cs) = every is_host_character (c ∷ cs)

-- The result of `urlsplit`.
pub record Url : Type 0 where
  pub scheme : String
  pub hostname : Option String
  pub username : Option String
  pub password : Option String
  pub query : String
  pub fragment : String
  pub path : String
  pub netloc : String

-- Whether a value that may be None or empty counts as true.
abbrev pub truthy : Option String → Bool
truthy none = false
truthy (some s) = not (str_eq s "")

unfoldable pub is_refused : Url → Bool
is_refused url =
    not (str_eq url.scheme "https")
    || not (truthy url.hostname)
    || truthy url.username
    || truthy url.password
    || truthy (some url.query)
    || truthy (some url.fragment)
    || not (str_eq url.path "" || str_eq url.path "/")
    || not (matches_host (codes url.netloc))

-- `marker.endswith(suffix)`, on code points.
abbrev same_codes : List ℕ → List ℕ → Bool
same_codes [] [] = true
same_codes [] (b ∷ bs) = false
same_codes (a ∷ rest) [] = false
same_codes (a ∷ rest) (b ∷ bs) = a == b && same_codes rest bs

abbrev ends_with : List ℕ → List ℕ → Bool
ends_with suffix [] = same_codes suffix []
ends_with suffix (c ∷ cs) = same_codes suffix (c ∷ cs) || ends_with suffix cs

-- The branches of the `if` statement.
pub data Kind : Type 0 where
  image identity vault storage plain : Kind

unfoldable pub kind_of : (marker : String) → Kind
kind_of marker =
    if ends_with (codes "IMAGE__") (codes marker)
    then image
    else if str_eq marker "__AZURE_CLIENT_ID__" || str_eq marker "__AZURE_TENANT_ID__"
    then identity
    else if str_eq marker "__KEY_VAULT_NAME__"
    then vault
    else if str_eq marker "__AZURE_STORAGE_ACCOUNT_URL__"
    then storage
    else plain

module _ (uuid : String → Result (Unit {0})) (urlsplit : String → Result Url) where
  unfoldable pub check_kind : Kind → (marker value : String) → Result (Unit {0})
  check_kind image marker value =
      check (not (matches_image (codes value))) (other ("invalid image reference for " ++ marker))
        (ok tt)
  check_kind identity marker value = uuid value
  check_kind vault marker value =
      check (not (matches_vault (codes value))) (other "invalid Key Vault name") (ok tt)
  check_kind storage marker value = urlsplit value >>= λ url.
      check (is_refused url)
        (other "storage URL must be an HTTPS account endpoint without credentials") (ok tt)
  check_kind plain marker value = ok tt

  unfoldable pub check_value : (marker value : String) → Result (Unit {0})
  check_value marker value =
      check (str_eq value "" || any is_space (codes value))
        (other ("empty or whitespace-containing value for " ++ marker))
        (check_kind (kind_of marker) marker value)

  unfoldable pub validate_substitutions : List (String × String) → Result (Unit {0})
  validate_substitutions [] = ok tt
  validate_substitutions ((marker, value) ∷ values) =
      check_value marker value >>= λ u. validate_substitutions values
