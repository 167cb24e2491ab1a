-- ===== src/Scripts/Smoke/Stops.antt =====
-- The steps of scripts/smoke_stack.py and its polling loops, on fuel.
use Prim.{absurd}
use azure_ml_optimization_pl.Base.{
  ℕ, zero, suc, ◌+◌, ◌≤◌, ◌<◌, leb, leb→le, String, ◌≡◌, ◌≢◌, refl, Bool, Bool-cases, inl, inr,
  true, false, Option, some, arith,
}
use azure_ml_optimization_pl.Double.{Double}
use azure_ml_optimization_pl.Errors.{Error, Result, ok, err}
use azure_ml_optimization_pl.Exec.{Exec, raise_if, ◌>>=◌}
use azure_ml_optimization_pl.Exec.Ensures.{
  Ensures, EndsIn, EndsIn-of, Ensures-pure, Ensures-bind, Ensures-weaken,
}
use azure_ml_optimization_pl.Scripts.Json.{Json, item}
use azure_ml_optimization_pl.Scripts.Smoke.{
  Request, Step, Script, Polled, out_of_fuel, required, assert, clock, ask, fetch, fetch_item,
  stop_or, pass_or, poll,
}

module _ {F : Type 0} where
  abbrev pub Anything : Script F → Type 0
  Anything s = Unit

  -- So many calls have been made.
  abbrev pub Reach : ℕ → Script F → Type 0
  Reach m s = m ≤ s.step

module _ {F A : Type 0} where
  -- Nothing is asked of a step.
  pub any_step : (m : Exec (Script F) A) → Ensures Anything Anything m (λ a. Anything)
  any_step m = record {
    at = λ s h. EndsIn-of Anything (λ a. Anything) (m s).0 (m s).1 tt (λ a e. tt);
  }

  pub Ensures-required :
      {P : Script F → Type 0} (q : Result A)
      → Ensures Anything P (required q) (λ a s. P s × (q ≡ ok a))
  Ensures-required (ok a) = record { at = λ s h. (h, refl) }
  Ensures-required (err e) = record { at = λ s h. tt }

  -- A fact that a step before has checked.
  pub given :
      {φ : Type 0} {Q : A → Script F → Type 0} (m : Exec (Script F) A)
      → (φ → Ensures Anything Anything m Q)
      → Ensures Anything (λ s. φ) m Q
  given m k = record { at = λ s h. (k h).at s tt }

module _ {F A B : Type 0} {R : B → Script F → Type 0} where
  pub then_any :
      (m : Exec (Script F) A) (f : A → Exec (Script F) B)
      → ((a : A) → Ensures Anything Anything (f a) R)
      → Ensures Anything Anything (m >>= f) R
  then_any m f k = Ensures-bind m f (λ a. Anything) (any_step m) k

  pub then_required :
      (q : Result A) (f : A → Exec (Script F) B)
      → ((a : A) → q ≡ ok a → Ensures Anything Anything (f a) R)
      → Ensures Anything Anything (required q >>= f) R
  then_required q f k =
      Ensures-bind (required q) f (λ a s. q ≡ ok a)
        (Ensures-weaken _ _ _ (λ a s h. h.1) (Ensures-required {P = Anything} q))
        (λ a. given (f a) (k a))

module _ {F : Type 0} where
  Ensures-raises :
      {P : Script F → Type 0} (b : Bool) (e : Error) → Ensures Anything P (raise_if b e) (λ u. P)
  unfolding raise_if
  Ensures-raises true e = record { at = λ s h. tt }
  Ensures-raises false e = record { at = λ s h. h }

  Ensures-assert :
      (b : Bool) → Ensures {S = Script F} Anything Anything (assert b) (λ u s. b ≡ true)
  unfolding raise_if
  Ensures-assert true = record { at = λ s h. refl }
  Ensures-assert false = record { at = λ s h. tt }

  pub then_assert :
      {B : Type 0} {R : B → Script F → Type 0} (b : Bool) (n : Exec (Script F) B)
      → (b ≡ true → Ensures Anything Anything n R)
      → Ensures Anything Anything (assert b >>= λ u. n) R
  then_assert b n k =
      Ensures-bind (assert b) (λ u. n) (λ u s. b ≡ true) (Ensures-assert b) (λ u. given n k)

module _ {F : Type 0} ⦃d : Double F⦄ (outside : ℕ → Step F) where
  ended_lem :
      {A : Type 0} (r : Result A) (m : ℕ) (s : Script F)
      → m ≤ s.step
      → EndsIn Anything (λ a. Reach m) r s
  ended_lem (ok a) m s h = h
  ended_lem (err e) m s h = tt

  pub ask-Reach :
      (m : ℕ) (x : Request F) → Ensures Anything (Reach m) (ask outside x) (λ r. Reach m)
  unfolding ask
  ask-Reach m x = record { at = λ s h. ended_lem _ m _ (omega (arith, h)) }

  pub fetch-Reach :
      (m : ℕ) (x : Request F) → Ensures Anything (Reach m) (fetch outside x) (λ r. Reach m)
  unfolding fetch
  fetch-Reach m x =
      Ensures-bind _ _ (λ r. Reach m) (ask-Reach m x)
        λ r. Ensures-bind _ _ (λ u. Reach m) (Ensures-raises _ _) λ u. Ensures-pure r.body

  pub fetch_item-Reach :
      (m : ℕ) (x : Request F) (key : String)
      → Ensures Anything (Reach m) (fetch_item outside x key) (λ r. Reach m)
  unfolding fetch_item
  fetch_item-Reach m x key =
      Ensures-bind _ _ (λ r. Reach m) (fetch-Reach m x)
        λ body. Ensures-weaken _ _ _ (λ a s h. h.0) (Ensures-required (item key body))

  module _ (timeout started : F) (n : ℕ)
      (over : (k : ℕ) → n ≤ k → d.lt (d.sub (outside k).monotonic started) timeout ≡ false)
      (query : Exec (Script F) (Json F)) (test : Json F → Result Bool)
      (grows : (m : ℕ) → Ensures Anything (Reach m) query (λ r. Reach m)) where
    abbrev pub Ended : Polled F → Script F → Type 0
    Ended p s = p ≢ out_of_fuel

    stop_or-Ended :
        (stop : Bool) (state : Json F) (again : Exec (Script F) (Polled F)) (m : ℕ)
        → Ensures Anything (Reach m) again Ended
        → Ensures Anything
            (Reach m)
            (stop_or outside timeout started query test stop state again)
            Ended
    stop_or-Ended true state again m h = record { at = λ s r e. cc e }
    stop_or-Ended false state again m h = h

    pass_or-Ended :
        (b : Bool) (last : Option (Json F)) (go : Exec (Script F) (Polled F)) (s : Script F)
        → (b ≡ true → EndsIn Anything Ended (go s).0 (go s).1)
        → let (r, t) = pass_or outside timeout started query test b last go s in
          EndsIn Anything Ended r t
    pass_or-Ended true last go s h = h refl
    pass_or-Ended false last go s h = λ e. cc e

    -- The rest of a pass.
    rest-Ended :
        (fuel m : ℕ)
        → ((state : Json F)
            → Ensures Anything
                (Reach m)
                (poll outside timeout started query test fuel (some state))
                Ended)
        → Ensures Anything
            (Reach m)
            (query >>= λ state. required (test state) >>= λ stop.
              stop_or outside timeout started query test stop state
                (poll outside timeout started query test fuel (some state)))
            Ended
    rest-Ended fuel m again =
        Ensures-bind _ _ (λ x. Reach m) (grows m)
          λ state.
            Ensures-bind _ _ (λ x. Reach m)
              (Ensures-weaken _ _ _ (λ a t q. q.0) (Ensures-required (test state)))
              λ stop. stop_or-Ended stop state _ m (again state)

    in_time : (k : ℕ) → d.lt (d.sub (outside k).monotonic started) timeout ≡ true → k < n
    in_time k e = elim (Bool-cases (leb n k)) [
      | inl late ↦ cc (over k (leb→le n k late), e)
      | inr early ↦ ground (arith, early)
    ]

    -- With more fuel than calls are missing to the end of the time.
    pub poll-Ended :
        (fuel m : ℕ) (last : Option (Json F))
        → n ≤ m + fuel
        → Ensures Anything (Reach m) (poll outside timeout started query test (suc fuel) last) Ended
    unfolding poll ◌>>=◌ clock
    poll-Ended zero m last h = record {
      at = λ s r.
          pass_or-Ended _ last _ _
            λ e. let early = in_time s.step e in absurd (omega (arith, h, r, early));
    }
    poll-Ended (suc fuel) m last h = record {
      at = λ s r.
          let more =
            rest-Ended (suc fuel) (suc m)
              (λ state. poll-Ended fuel (suc m) (some state) (omega (arith, h))) in
          let t = (clock outside s).1 in
          let further : suc m ≤ t.step = omega (arith, r) in
          pass_or-Ended (d.lt (d.sub (outside s.step).monotonic started) timeout) last _ t
            λ e. more.at t further;
    }
