-- ===== src/Errors.antt =====
-- errors.py, and the exceptions of other origin that the platform's code lets through. Fallible
-- code returns a `Result`.
use azure_ml_optimization_pl.Base.{String, Bool, true, false, ◌≡◌, refl, ◌⊎◌, inl, inr}

-- The classes of errors.py, each with `str(exc)`. `other` is any exception of another class.
pub data Error : Type 0 where
  not_found_error conflict_error cancelled_error worker_shutdown_error lease_lost_error :
      String → Error
  engine_error : (message : String) → (retryable : Bool) → (code : String) → Error
  other : String → Error

pub data Result {ℓ} (A : Type ℓ) : Type ℓ where
  ok : A → Result A
  err : Error → Result A

-- `P` holds of the value, where there is one.
abbrev pub Returns {ℓ κ} : {A : Type ℓ} → (A → Type κ) → Result A → Type κ
Returns P (ok a) = P a
Returns P (err e) = Unit

-- The first of the checks that fails raises.
abbrev pub check {ℓ} : {A : Type ℓ} → Bool → Error → Result A → Result A
check true e r = err e
check false e r = r

module _ {ℓ κ} {A : Type ℓ} {B : Type κ} where
  infixl 5 ◌>>=◌
  -- The next step of a chain, where the first has a value.
  abbrev pub ◌>>=◌ : Result A → (A → Result B) → Result B
  err e >>= next = err e
  ok value >>= next = next value

  -- A chain that returns has a first value.
  pub bind-eq-ok :
      (first : Result A) (next : A → Result B) {b : B}
      → (first >>= next) ≡ ok b
      → (a : A) × (first ≡ ok a) × (next a ≡ ok b)
  bind-eq-ok (err e) next h = cc
  bind-eq-ok (ok value) next h = (value, refl, h)

pub Result-cases {ℓ} :
    {A : Type ℓ} (m : Result A) → ((a : A) × (m ≡ ok a)) ⊎ ((e : Error) × (m ≡ err e))
Result-cases (ok a) = inl (a, refl)
Result-cases (err e) = inr (e, refl)
