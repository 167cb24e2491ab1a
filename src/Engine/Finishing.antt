-- ===== src/Engine/Finishing.antt =====
-- Runs of the demo engine where nobody cancels or stops it.
use azure_ml_optimization_pl.Base.{
  ℕ, zero, suc, ◌+◌, ◌%◌, ◌<◌, ◌≡◌, ◌≢◌, refl, true, false, not, Bool-cases, inl, inr, some, List,
  [], ◌∷◌, ◌++◌, String, str_eq, length, get_elem?, arith,
}
use Prim.{⊥, absurd}
use native.Mathlib.Nat.{mod-lt, mod-eq_of_lt}
use azure_ml_optimization_pl.Double.{Double}
use azure_ml_optimization_pl.Domain.{ExperimentConfig, EngineResult, MetricPoint}
use azure_ml_optimization_pl.Engine.{
  Run, finished, raised, reports, asks_cancelled, asks_stop, reads_clock, Search, start, conclude,
  loop, iterations, execute, proceed,
}

-- While it is neither cancelled nor stopped, the engine returns a result of `P`.
abbrev pub Finishes : {F : Type 0} → (EngineResult F → Type 0) → Run F → Type 0
Finishes P (finished result) = P result
Finishes P (raised e) = ⊥
Finishes P (reports m rest) = Finishes P rest
Finishes P (asks_cancelled rest) = Finishes P (rest false)
Finishes P (asks_stop rest) = Finishes P (rest false)
Finishes P (reads_clock rest) = (now : ℕ) → Finishes P (rest now)

abbrev pub HasPoint : {F : Type 0} → EngineResult F → Type 0
HasPoint result = result.metrics ≢ []

get_elem?-some :
    {A : Type 0} (xs : List A) (i : ℕ) → i < length xs → (a : A) × (get_elem? xs i ≡ some a)
get_elem?-some [] i h = absurd (omega (arith, h))
get_elem?-some (x ∷ xs) zero h = (x, refl)
get_elem?-some (x ∷ xs) (suc i) h = get_elem?-some xs i (omega (arith, h))

supported_eq : (name : String) → name ≡ "hartmann6" → str_eq name "hartmann6" ≡ true
supported_eq name h = rw h refl

append_nonempty : {A : Type 0} (xs : List A) (x : A) → xs ++ x ∷ [] ≢ []
append_nonempty [] x h = cc
append_nonempty (y ∷ xs) x h = cc

module _ {F : Type 0} ⦃d : Double F⦄ (random : ℕ → ℕ → F) (config : ExperimentConfig F) where
  conclude-Finishes :
      (v : Search F) (ms : List (MetricPoint F))
      → v.metrics ≡ ms
      → ms ≢ []
      → Finishes HasPoint (conclude v)
  unfolding conclude
  conclude-Finishes v [] e some_point = absurd (some_point refl)
  conclude-Finishes v (m ∷ ms) e some_point = rw (e, conclude) (λ now. rw e some_point)

  module _ (f : F) (fs : List F) (scheduled : config.fidelities ≡ f ∷ fs) where
    fidelity_at :
        (i : ℕ) → (g : F) × (get_elem? config.fidelities (i % length config.fidelities) ≡ some g)
    fidelity_at i =
        rw scheduled (get_elem?-some (f ∷ fs) (i % length (f ∷ fs)) (mod-lt i (omega arith)))

    at_start : (i : ℕ) → i ≡ 0 → get_elem? (f ∷ fs) i ≡ some f
    at_start i h = rw h refl

    -- A round behind which the rest returns, from a state with a point or with budget for one.
    proceed-Finishes :
        (rest : Search F → Run F) (i : ℕ) (v : Search F)
        → ((w : Search F) → w.metrics ≢ [] → Finishes HasPoint (rest w))
        → ((g : F)
            → get_elem? config.fidelities (i % length config.fidelities) ≡ some g
            → d.lt config.budget (d.add v.cumulative_cost g) ≡ true
            → v.metrics ≢ [])
        → Finishes HasPoint (proceed random config rest i v)
    unfolding proceed
    proceed-Finishes rest i v after paid =
        let (g, there) = fidelity_at i in
        elim (Bool-cases (d.lt config.budget (d.add v.cumulative_cost g))) [
          | inl over ↦
              rw (there, over, proceed) (conclude-Finishes v v.metrics refl (paid g there over))
          | inr fits ↦ rw (there, fits, proceed) (λ now. after _ (append_nonempty _ _))
        ]

    loop-Finishes :
        (rounds i : ℕ) (v : Search F)
        → v.metrics ≢ []
        → Finishes HasPoint (loop random config rounds i v)
    unfolding loop
    loop-Finishes zero i v some_point = conclude-Finishes v v.metrics refl some_point
    loop-Finishes (suc rounds) i v some_point =
        proceed-Finishes _ i v (λ w. loop-Finishes rounds (i + 1) w) (λ g there over. some_point)

    first_fidelity : get_elem? config.fidelities (0 % length config.fidelities) ≡ some f
    first_fidelity = rw scheduled (at_start (0 % length (f ∷ fs)) (mod-eq_of_lt (omega arith)))

    refused :
        (g : F)
        → get_elem? config.fidelities (0 % length config.fidelities) ≡ some g
        → d.lt config.budget (d.add (d.literal 0 0) g) ≡ true
        → d.lt config.budget (d.add (d.literal 0 0) f) ≡ false
        → ⊥
    refused g there over fits = cc (there, first_fidelity, over, fits)

    first_round :
        (rounds : ℕ)
        → 0 < rounds
        → d.lt config.budget (d.add (d.literal 0 0) f) ≡ false
        → Finishes HasPoint (loop random config rounds 0 start)
    unfolding loop
    first_round zero h fits = absurd (omega (arith, h))
    first_round (suc rounds) h fits =
        proceed-Finishes _ 0 start (λ w. loop-Finishes rounds 1 w)
          (λ g there over. absurd (refused g there over fits))

    -- If nobody cancels or stops it, the demo engine returns a result with a point, for a
    -- configuration of its benchmark with a fidelity that the budget allows for and at least one
    -- iteration.
    pub execute-Finishes :
        config.benchmark ≡ "hartmann6"
        → 0 < iterations random config
        → d.lt config.budget (d.add (d.literal 0 0) f) ≡ false
        → Finishes HasPoint (execute random config false)
    unfolding execute
    execute-Finishes supported some_round fits =
        let known : not (str_eq config.benchmark "hartmann6") ≡ false =
          rw (supported_eq config.benchmark supported) refl in
        rw known (first_round (iterations random config) some_round fits)
