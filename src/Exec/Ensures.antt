-- ===== src/Exec/Ensures.antt =====
-- Hoare triples of methods: from `P` a method ends in `Q` with its value, or raises in `I`.
use azure_ml_optimization_pl.Base.{Bool, true, false, ◌≡◌, refl, if◌then◌else◌}
use azure_ml_optimization_pl.Errors.{Error, Result, ok, err}
use azure_ml_optimization_pl.Exec.{
  Exec, pure, raise, gets, recover, attempt, finally, continue, modify, raise_if, when, ◌>>=◌,
}

module _ {S A : Type 0} where
  abbrev pub EndsIn : (S → Type 0) → (A → S → Type 0) → Result A → S → Type 0
  EndsIn I Q (ok a) s = Q a s
  EndsIn I Q (err e) s = I s

  -- A result whose state keeps `I` in any case and satisfies `Q` with a value.
  pub EndsIn-of :
      (I : S → Type 0) (Q : A → S → Type 0) (r : Result A) (s : S)
      → I s
      → ((a : A) → r ≡ ok a → Q a s)
      → EndsIn I Q r s
  EndsIn-of I Q (ok a) s i q = q a refl
  EndsIn-of I Q (err e) s i q = i

  state_lem : (I : S → Type 0) (r : Result A) (s : S) → EndsIn I (λ a. I) r s → I s
  state_lem I (ok a) s h = h
  state_lem I (err e) s h = h

  weaken_lem :
      (I : S → Type 0) (Q R : A → S → Type 0) (r : Result A) (s : S)
      → ((a : A) (s : S) → Q a s → R a s)
      → EndsIn I Q r s
      → EndsIn I R r s
  weaken_lem I Q R (ok a) s k q = k a s q
  weaken_lem I Q R (err e) s k q = q

  pub record Ensures (I P : S → Type 0) (m : Exec S A) (Q : A → S → Type 0) : Type 0 where
    pub at : (s : S) → P s → EndsIn I Q (m s).0 (m s).1

-- `m` keeps `I`, whether it returns or raises.
abbrev pub Keeps : {S A : Type 0} → (S → Type 0) → Exec S A → Type 0
Keeps I m = Ensures I I m (λ a. I)

module _ {S A : Type 0} {I P : S → Type 0} where
  pub Ensures-weaken :
      (m : Exec S A) (Q R : A → S → Type 0)
      → ((a : A) (s : S) → Q a s → R a s)
      → Ensures I P m Q
      → Ensures I P m R
  Ensures-weaken m Q R k e = record { at = λ s p. weaken_lem I Q R (m s).0 (m s).1 k (e.at s p) }

module _ {S A : Type 0} {I : S → Type 0} where
  pub Ensures-pure : (a : A) {Q : A → S → Type 0} → Ensures I (Q a) (pure a) Q
  unfolding pure
  Ensures-pure a = record { at = λ s h. h }

  pub Keeps-pure : (a : A) → Keeps I (pure a)
  unfolding pure
  Keeps-pure a = record { at = λ s h. h }

  pub Keeps-raise : (e : Error) → Keeps I (raise {A = A} e)
  unfolding raise
  Keeps-raise e = record { at = λ s h. h }

  pub Keeps-gets : (f : S → A) → Keeps I (gets f)
  unfolding gets
  Keeps-gets f = record { at = λ s h. h }

  pub Ensures-gets : {P : S → Type 0} (f : S → A) → Ensures I P (gets f) (λ a s. P s × (a ≡ f s))
  unfolding gets
  Ensures-gets f = record { at = λ s h. (h, refl) }

  -- The value read is one of a state that meets the precondition.
  recover_lem :
      (h : Error → Exec S A) {Q : A → S → Type 0}
      → ((e : Error) → Ensures I I (h e) Q)
      → (r : Result A) (s : S) → EndsIn I Q r s
      → EndsIn I Q (recover r h s).0 (recover r h s).1
  recover_lem h k (ok a) s q = q
  recover_lem h k (err e) s q = (k e).at s q

  pub Keeps-if : (b : Bool) (m n : Exec S A) → Keeps I m → Keeps I n → Keeps I (if b then m else n)
  Keeps-if true m n k l = k
  Keeps-if false m n k l = l

  pub Ensures-if :
      {P : S → Type 0} {Q : A → S → Type 0} (b : Bool) (m n : Exec S A)
      → Ensures I P m Q
      → Ensures I P n Q
      → Ensures I P (if b then m else n) Q
  Ensures-if true m n k l = k
  Ensures-if false m n k l = l

  -- The invariant holds where the method ends, however it ends.
  pub Keeps-state : (m : Exec S A) → Keeps I m → (s : S) → I s → I (m s).1
  Keeps-state m k s h = state_lem I (m s).0 (m s).1 (k.at s h)

  pub Keeps-of : (m : Exec S A) → ((s : S) → I s → I (m s).1) → Keeps I m
  Keeps-of m k = record {
    at = λ s i. let kept = k s i in EndsIn-of I (λ a. I) (m s).0 (m s).1 kept (λ a e. kept);
  }

  pub Ensures-attempt :
      (m : Exec S A) (h : Error → Exec S A) {P : S → Type 0} {Q : A → S → Type 0}
      → Ensures I P m Q
      → ((e : Error) → Ensures I I (h e) Q)
      → Ensures I P (attempt m h) Q
  unfolding attempt
  Ensures-attempt m h k l = record { at = λ s p. recover_lem h l (m s).0 (m s).1 (k.at s p) }

  finally_lem :
      (f : S → S) {Q : A → S → Type 0}
      → ((s : S) → I s → I (f s))
      → ((a : A) (s : S) → Q a s → Q a (f s))
      → (r : Result A) (s : S) → EndsIn I Q r s
      → EndsIn I Q r (f s)
  finally_lem f k l (ok a) s q = l a s q
  finally_lem f k l (err e) s q = k s q

  pub Ensures-finally :
      (m : Exec S A) (f : S → S) {P : S → Type 0} {Q : A → S → Type 0}
      → Ensures I P m Q
      → ((s : S) → I s → I (f s))
      → ((a : A) (s : S) → Q a s → Q a (f s))
      → Ensures I P (finally m f) Q
  unfolding finally
  Ensures-finally m f k l n = record { at = λ s p. finally_lem f l n (m s).0 (m s).1 (k.at s p) }

module _ {S A B : Type 0} {I : S → Type 0} where
  continue_lem :
      (f : A → Exec S B) {Q : A → S → Type 0} {R : B → S → Type 0}
      → ((a : A) → Ensures I (Q a) (f a) R)
      → (r : Result A) (s : S) → EndsIn I Q r s
      → EndsIn I R (continue r f s).0 (continue r f s).1
  continue_lem f k (ok a) s q = (k a).at s q
  continue_lem f k (err e) s q = q

  pub Ensures-bind :
      (m : Exec S A) (f : A → Exec S B) {P : S → Type 0} (Q : A → S → Type 0) {R : B → S → Type 0}
      → Ensures I P m Q
      → ((a : A) → Ensures I (Q a) (f a) R)
      → Ensures I P (m >>= f) R
  unfolding ◌>>=◌
  Ensures-bind m f Q k l = record { at = λ s p. continue_lem f l (m s).0 (m s).1 (k.at s p) }

  pub Keeps-bind :
      (m : Exec S A) (f : A → Exec S B) → Keeps I m → ((a : A) → Keeps I (f a)) → Keeps I (m >>= f)
  Keeps-bind m f k l = Ensures-bind m f (λ a. I) k l

module _ {S : Type 0} {I : S → Type 0} where
  pub Keeps-modify : (f : S → S) → ((s : S) → I s → I (f s)) → Keeps I (modify f)
  unfolding modify
  Keeps-modify f k = record { at = k }

  pub Keeps-raise_if : (b : Bool) (e : Error) → Keeps I (raise_if b e)
  unfolding raise_if
  Keeps-raise_if true e = record { at = λ s h. h }
  Keeps-raise_if false e = record { at = λ s h. h }

  pub Ensures-raise_if :
      {P : S → Type 0} (b : Bool) (e : Error)
      → ((s : S) → P s → b ≡ false)
      → Ensures I P (raise_if b e) (λ _. P)
  unfolding raise_if
  Ensures-raise_if true e k = record { at = λ s h. cc (k s h) }
  Ensures-raise_if false e k = record { at = λ s h. h }

  pub Keeps-when : (b : Bool) (m : Exec S (Unit {0})) → Keeps I m → Keeps I (when b m)
  unfolding when
  Keeps-when true m k = k
  Keeps-when false m k = record { at = λ s h. h }

-- A first step that returns.
pub bind_ok :
    {S A B : Type 0} (m : Exec S A) (f : A → Exec S B) (w : S) (a : A) (w' : S)
    → m w ≡ (ok a, w')
    → (m >>= f) w ≡ f a w'
unfolding ◌>>=◌
bind_ok m f w a w' h = rw h refl

pub ruleset keeps_rules = (
  Keeps-pure, Keeps-raise, Keeps-gets, Keeps-bind, Keeps-raise_if, Keeps-when, Keeps-if,
  Ensures-attempt,
)

-- A sequence that returns: both steps have returned.
continue_inverse :
    {S A B : Type 0} (r : Result A) (f : A → Exec S B) (s t : S) (b : B)
    → continue r f s ≡ (ok b, t)
    → (a : A) × (r ≡ ok a) × (f a s ≡ (ok b, t))
continue_inverse (ok a) f s t b h = (a, refl, h)
continue_inverse (err e) f s t b h = cc

pub bind_inverse :
    {S A B : Type 0} (m : Exec S A) (f : A → Exec S B) (s t : S) (b : B)
    → (m >>= f) s ≡ (ok b, t)
    → (a : A) × (s' : S) × (m s ≡ (ok a, s')) × (f a s' ≡ (ok b, t))
unfolding ◌>>=◌
bind_inverse m f s t b h =
    let (a, returned, behind) = continue_inverse (m s).0 f (m s).1 t b h in
    (a, (m s).1, cc returned, behind)
