-- ===== src/Exec.antt =====
-- Methods that change a state and may raise: what was written before a raise stays written.
pub mod Ensures
use azure_ml_optimization_pl.Base.{Bool, true, false, if◌then◌else◌}
use azure_ml_optimization_pl.Errors.{Error, Result, ok, err}

abbrev pub Exec {ℓ} : Type ℓ → Type ℓ → Type ℓ
Exec S A = S → Result A × S

module _ {ℓ} {S A : Type ℓ} where
  unfoldable pub raise : Error → Exec S A
  raise e s = (err e, s)

  unfoldable pub pure : A → Exec S A
  pure a s = (ok a, s)

  unfoldable pub gets : (S → A) → Exec S A
  gets f s = (ok (f s), s)

  abbrev pub recover : Result A → (Error → Exec S A) → Exec S A
  recover (ok a) h s = (ok a, s)
  recover (err e) h s = h e s

  -- `try: m` with `except Exception as e: h e`.
  unfoldable pub attempt : Exec S A → (Error → Exec S A) → Exec S A
  attempt m h s = let (r, s') = m s in recover r h s'

  -- `try: m` with `finally: f`, for an `f` that raises nothing.
  unfoldable pub finally : Exec S A → (S → S) → Exec S A
  finally m f s = let (r, s') = m s in (r, f s')

module _ {ℓ} {S A B : Type ℓ} where
  abbrev pub continue : Result A → (A → Exec S B) → Exec S B
  continue (err e) f s = (err e, s)
  continue (ok a) f s = f a s

  infixl 10 ◌>>=◌ ◌>>◌
  unfoldable pub ◌>>=◌ : Exec S A → (A → Exec S B) → Exec S B
  ◌>>=◌ m f s = let (r, s') = m s in continue r f s'

  abbrev pub ◌>>◌ : Exec S A → Exec S B → Exec S B
  m >> n = m >>= λ _. n

module _ {S : Type 0} where
  unfoldable pub modify : (S → S) → Exec S (Unit {0})
  modify f s = (ok tt, f s)

  unfoldable pub raise_if : Bool → Error → Exec S (Unit {0})
  raise_if true e s = (err e, s)
  raise_if false e s = (ok tt, s)

  unfoldable pub when : Bool → Exec S (Unit {0}) → Exec S (Unit {0})
  when true m s = m s
  when false m s = (ok tt, s)

-- `with suppress(...)` for the exceptions that `named` tells.
unfoldable pub suppress :
    {S : Type 0} → (named : Error → Bool) → Exec S (Unit {0}) → Exec S (Unit {0})
suppress named m = attempt m (λ e. if named e then pure tt else raise e)
