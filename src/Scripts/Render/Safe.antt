-- ===== src/Scripts/Render/Safe.antt =====
-- The values that `validate_substitutions` of scripts/render_k8s.py accepts: their characters,
-- their lengths and the fields of their URLs.
use azure_ml_optimization_pl.Base.{
  ℕ, zero, suc, ◌+◌, ◌≤◌, String, str_eq, ◌≡◌, refl, Bool, true, false, not, ◌&&◌, ◌||◌, List, [],
  ◌∷◌, length, every, every_iff, All, arith, leb→le,
}
use azure_ml_optimization_pl.Errors.{Error, Result, ok, check, bind-eq-ok}
use azure_ml_optimization_pl.Scripts.Render.{
  codes, any, is_space, is_letter, is_alphanumeric, is_image_character, is_name_character,
  is_host_character, matches_image, matches_end, matches_vault, matches_host, Url, truthy,
  is_refused, Kind, image, identity, vault, storage, plain, kind_of, check_kind, check_value,
  validate_substitutions,
}

split_and : (a b : Bool) → a && b ≡ true → (a ≡ true) × (b ≡ true)
split_and true b h = (refl, h)
split_and false b h = cc

neither : (a b : Bool) → a || b ≡ false → (a ≡ false) × (b ≡ false)
neither true b h = cc
neither false b h = (refl, h)

passed : (b : Bool) → not b ≡ false → b ≡ true
passed true h = refl
passed false h = cc

check-ok :
    (b : Bool) (e : Error) (r : Result (Unit {0})) → check b e r ≡ ok tt → (b ≡ false) × (r ≡ ok tt)
check-ok true e r h = cc
check-ok false e r h = (refl, h)

-- The characters of a list that all pass a test.
abbrev pub AllPass : (ℕ → Bool) → List ℕ → Type 0
AllPass p cs = All (λ c. p c ≡ true) cs

abbrev pub NonePass : (ℕ → Bool) → List ℕ → Type 0
NonePass p cs = All (λ c. p c ≡ false) cs

every-AllPass : (p : ℕ → Bool) (cs : List ℕ) → every p cs ≡ true → AllPass p cs
every-AllPass p cs h = (every_iff p (λ c. p c ≡ true) (λ c. (λ e. e, λ e. e)) cs).0 h

any-NonePass : (p : ℕ → Bool) (cs : List ℕ) → any p cs ≡ false → NonePass p cs
any-NonePass p [] h = tt
any-NonePass p (c ∷ cs) h = (ground arith, any-NonePass p cs (ground arith))

alphanumeric_image : (c : ℕ) → is_alphanumeric c ≡ true → is_image_character c ≡ true
unfolding is_image_character
alphanumeric_image c h = rw h refl

alphanumeric_name : (c : ℕ) → is_alphanumeric c ≡ true → is_name_character c ≡ true
unfolding is_name_character
alphanumeric_name c h = rw h refl

letter_name : (c : ℕ) → is_letter c ≡ true → is_name_character c ≡ true
unfolding is_name_character is_alphanumeric
letter_name c h = rw h refl

image_bound :
    (cs : List ℕ)
    → matches_image cs ≡ true
    → AllPass is_image_character cs × (1 ≤ length cs) × (length cs ≤ 512)
unfolding matches_image
image_bound [] h = cc
image_bound (c ∷ cs) h =
    let (both, short) = split_and _ _ h in
    let (first, rest) = split_and _ _ both in
    let few = leb→le (length cs) 511 short in
    ((alphanumeric_image c first, every-AllPass _ cs rest), omega arith, omega (arith, few))

end_bound :
    (least most : ℕ) (cs : List ℕ)
    → matches_end least most cs ≡ true
    → AllPass is_name_character cs × (least + 1 ≤ length cs) × (length cs ≤ most + 1)
unfolding matches_end
end_bound least most [] h = cc
end_bound least most (c ∷ []) h =
    let (enough, last) = split_and _ _ h in
    let few = leb→le least 0 enough in
    ((alphanumeric_name c last, tt), omega (arith, few), omega arith)
end_bound least zero (c ∷ b ∷ cs) h = cc
end_bound zero (suc most) (c ∷ b ∷ cs) h =
    let (named, rest) = split_and _ _ h in
    let (all, low, high) = end_bound zero most (b ∷ cs) rest in
    ((named, all), omega arith, omega (arith, high))
end_bound (suc least) (suc most) (c ∷ b ∷ cs) h =
    let (named, rest) = split_and _ _ h in
    let (all, low, high) = end_bound least most (b ∷ cs) rest in
    ((named, all), omega (arith, low), omega (arith, high))

vault_bound :
    (cs : List ℕ)
    → matches_vault cs ≡ true
    → AllPass is_name_character cs × (3 ≤ length cs) × (length cs ≤ 24)
unfolding matches_vault
vault_bound [] h = cc
vault_bound (c ∷ cs) h =
    let (first, rest) = split_and _ _ h in
    let (all, low, high) = end_bound 1 22 cs rest in
    ((letter_name c first, all), omega (arith, low), omega (arith, high))

host_bound : (cs : List ℕ) → matches_host cs ≡ true → AllPass is_host_character cs
unfolding matches_host
host_bound [] h = cc
host_bound (c ∷ cs) h = every-AllPass is_host_character (c ∷ cs) h

-- A URL of an account over HTTPS, without credentials, query or fragment.
pub record IsEndpoint (url : Url) : Type 0 where
  pub secure : str_eq url.scheme "https" ≡ true
  pub hosted : truthy url.hostname ≡ true
  pub no_username : truthy url.username ≡ false
  pub no_password : truthy url.password ≡ false
  pub no_query : str_eq url.query "" ≡ true
  pub no_fragment : str_eq url.fragment "" ≡ true
  pub host_characters : AllPass is_host_character (codes url.netloc)

endpoint : (url : Url) → is_refused url ≡ false → IsEndpoint url
unfolding is_refused
endpoint url h = record {
  secure = ground arith;
  hosted = ground arith;
  no_username = ground arith;
  no_password = ground arith;
  no_query = ground arith;
  no_fragment = ground arith;
  host_characters = host_bound _ (ground arith);
}

module _ (uuid : String → Result (Unit {0})) (urlsplit : String → Result Url) where
  -- What a value of each kind is.
  abbrev pub SafeKind : Kind → String → Type 0
  SafeKind image value =
      AllPass is_image_character (codes value)
      × (1 ≤ length (codes value))
      × (length (codes value) ≤ 512)
  SafeKind identity value = uuid value ≡ ok tt
  SafeKind vault value =
      AllPass is_name_character (codes value)
      × (3 ≤ length (codes value))
      × (length (codes value) ≤ 24)
  SafeKind storage value = (url : Url) × (urlsplit value ≡ ok url) × IsEndpoint url
  SafeKind plain value = Unit

  pub record IsSafe (marker value : String) : Type 0 where
    pub given : str_eq value "" ≡ false
    pub unspaced : NonePass is_space (codes value)
    pub of_kind : SafeKind (kind_of marker) value

  kind_safe :
      (kind : Kind) (marker value : String)
      → check_kind uuid urlsplit kind marker value ≡ ok tt
      → SafeKind kind value
  unfolding check_kind
  kind_safe image marker value h = image_bound _ (passed _ (check-ok _ _ _ h).0)
  kind_safe identity marker value h = h
  kind_safe vault marker value h = vault_bound _ (passed _ (check-ok _ _ _ h).0)
  kind_safe storage marker value h =
      let (url, parsed, accepted) = bind-eq-ok (urlsplit value) _ h in
      (url, parsed, endpoint url (check-ok _ _ _ accepted).0)
  kind_safe plain marker value h = tt

  value-IsSafe :
      (marker value : String) → check_value uuid urlsplit marker value ≡ ok tt → IsSafe marker value
  unfolding check_value
  value-IsSafe marker value h =
      let (shape, kind) = check-ok _ _ _ h in
      let (given, unspaced) = neither _ _ shape in
      record {
        given = given;
        unspaced = any-NonePass is_space (codes value) unspaced;
        of_kind = kind_safe (kind_of marker) marker value kind;
      }

  -- If the substitutions are accepted, every value is given and has no white space; an image
  -- reference has 1 to 512 characters, of the allowed ones; an identity is a UUID; a vault's name
  -- has 3 to 24 characters, letters, digits and dashes; and a storage URL is an HTTPS endpoint with
  -- a host name, without a user, a password, a query or a fragment, and with a host of letters,
  -- digits, dots and dashes.
  pub validate_substitutions-IsSafe :
      (values : List (String × String))
      → validate_substitutions uuid urlsplit values ≡ ok tt
      → All (λ (marker, value). IsSafe marker value) values
  unfolding validate_substitutions
  validate_substitutions-IsSafe [] h = tt
  validate_substitutions-IsSafe ((marker, value) ∷ values) h =
      let (u, one, rest) = bind-eq-ok (check_value uuid urlsplit marker value) _ h in
      (value-IsSafe marker value one, validate_substitutions-IsSafe values rest)
