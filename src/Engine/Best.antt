-- ===== src/Engine/Best.antt =====
-- The recommendation of the demo engine beside the points that it reported.
use azure_ml_optimization_pl.Base.{
  ℕ, zero, suc, ◌+◌, ◌%◌, ◌≡◌, refl, subst, ◌⊎◌, inl, inr, Bool, true, false, Bool-cases,
  Option-cases, str_eq, some, List, [], ◌∷◌, ◌++◌, length, get_elem?, All, arith,
}
use azure_ml_optimization_pl.Double.{Double, IsOrdered}
use azure_ml_optimization_pl.Domain.{ExperimentConfig, MetricPoint, EngineResult}
use azure_ml_optimization_pl.Engine.{
  Run, Search, start, conclude, evaluate, objective_at, point, proceed, loop, iterations, execute,
}
use azure_ml_optimization_pl.Engine.Behaviour.{Behaves}
use azure_ml_optimization_pl.Errors.{Error}

All-snoc :
    {A : Type 0} (P : A → Type 0) (xs : List A) (x : A) → All P xs → P x → All P (xs ++ x ∷ [])
All-snoc P [] x h k = (k, tt)
All-snoc P (y ∷ xs) x h k = (h.0, All-snoc P xs x h.1 k)

All-weaken :
    {A : Type 0} (P Q : A → Type 0) (xs : List A) → ((x : A) → P x → Q x) → All P xs → All Q xs
All-weaken P Q [] k h = tt
All-weaken P Q (x ∷ xs) k h = (k x h.0, All-weaken P Q xs k h.1)

abbrev pub AnyRaise : Error → Type 0
AnyRaise e = Unit

module _ {F : Type 0} ⦃d : Double F⦄ where
  -- The objective of the point is not below `best`.
  abbrev pub NotBelow : F → MetricPoint F → Type 0
  NotBelow best m = (y : F) → m.objective ≡ some y → d.lt y best ≡ false

  -- The point has this objective, candidate and fidelity.
  abbrev pub HasValues : F → List F → F → MetricPoint F → Type 0
  HasValues best candidate fidelity m =
      (m.objective ≡ some best) × (m.candidate ≡ some candidate) × (m.fidelity ≡ fidelity)

  abbrev pub Any : (MetricPoint F → Type 0) → List (MetricPoint F) → Type 0
  Any P [] = ⊥
  Any P (m ∷ ms) = P m ⊎ Any P ms

  Any-left :
      (P : MetricPoint F → Type 0) (xs ys : List (MetricPoint F)) → Any P xs → Any P (xs ++ ys)
  Any-left P [] ys h = absurd h
  Any-left P (x ∷ xs) ys (inl h) = inl h
  Any-left P (x ∷ xs) ys (inr h) = inr (Any-left P xs ys h)

  Any-last :
      (P : MetricPoint F → Type 0) (xs : List (MetricPoint F)) (x : MetricPoint F)
      → P x
      → Any P (xs ++ x ∷ [])
  Any-last P [] x h = inl h
  Any-last P (y ∷ xs) x h = inr (Any-last P xs x h)

  -- No point has an objective below `best`, which is that of a point, unless it still is infinite.
  pub record IsBest (best : F) (candidate : List F) (fidelity : F) (points : List (MetricPoint F))
      : Type 0 where
    pub least : All (NotBelow best) points
    pub attained : Any (HasValues best candidate fidelity) points ⊎ (best ≡ d.inf)

  abbrev pub IsRunningBest : List (MetricPoint F) → MetricPoint F → Type 0
  IsRunningBest history m = All (NotBelow m.best_objective) (history ++ m ∷ [])

  abbrev pub IsRecommended : List (MetricPoint F) → EngineResult F → Type 0
  IsRecommended history result =
      let r = result.recommendation in IsBest r.objective r.candidate r.fidelity history

  abbrev IsBestSearch : Search F → Type 0
  IsBestSearch v = IsBest v.best v.best_candidate v.best_fidelity v.metrics

  own_objective : (a y b : F) → some a ≡ some y → d.lt a b ≡ false → d.lt y b ≡ false
  own_objective a y b e h = cc

  module _ (laws : IsOrdered F) (random : ℕ → ℕ → F) (config : ExperimentConfig F) where
    open laws use {lt_irrefl, lt_trans}

    NotBelow-lower :
        (new old : F) → d.lt new old ≡ true → (m : MetricPoint F) → NotBelow old m → NotBelow new m
    NotBelow-lower new old h m k y e = elim (Bool-cases (d.lt y new)) [
      | inl below ↦ cc (lt_trans y new old below h, k y e)
      | inr above ↦ above
    ]

    -- The search after an evaluation, with the point that it reports.
    abbrev next : ℕ → F → Search F → ℕ → Search F
    next i f v n =
        let w = evaluate random config i f v in
        record w { metrics = w.metrics ++ point random config i f w n ∷ [] }

    next-IsBest :
        (i : ℕ) (f : F) (v : Search F) (n : ℕ) → IsBestSearch v → IsBestSearch (next i f v n)
    unfolding evaluate point
    next-IsBest i f v n h = elim (Bool-cases (d.lt (objective_at random config i f) v.best)) [
      | inl better ↦ rw better (record {
        least =
            All-snoc _ v.metrics _
              (All-weaken _ _ v.metrics (NotBelow-lower _ v.best better) h.least)
              λ y e. own_objective _ y _ e (lt_irrefl _);
        attained = inl (Any-last _ v.metrics _ (refl, refl, refl));
      })
      | inr worse ↦ rw worse (record {
        least = All-snoc _ v.metrics _ h.least λ y e. own_objective _ y _ e worse;
        attained = elim h.attained [ inl a ↦ inl (Any-left _ v.metrics _ a) | inr e ↦ inr e ];
      })
    ]

    evaluate-metrics :
        (i : ℕ) (f : F) (v : Search F) → (evaluate random config i f v).metrics ≡ v.metrics
    unfolding evaluate
    evaluate-metrics i f v = ground arith

    abbrev Bests : Run F → List (MetricPoint F) → Type 0
    Bests = Behaves IsRunningBest IsRecommended AnyRaise

    conclude-Bests :
        (v : Search F) (ms : List (MetricPoint F))
        → v.metrics ≡ ms
        → IsBestSearch v
        → Bests (conclude v) v.metrics
    unfolding conclude
    conclude-Bests v [] e h = rw (e, conclude) tt
    conclude-Bests v (m ∷ ms) e h =
        let known : IsBest v.best v.best_candidate v.best_fidelity (m ∷ ms) =
          subst (IsBest v.best v.best_candidate v.best_fidelity) e h in
        rw (e, conclude) (λ n. known)

    next-Bests :
        (rest : Search F → Run F) (i : ℕ) (f : F) (v : Search F) (n : ℕ)
        → IsBestSearch v
        → ((u : Search F) → IsBestSearch u → Bests (rest u) u.metrics)
        → let m = point random config i f (evaluate random config i f v) n in
          IsRunningBest v.metrics m × Bests (rest (next i f v n)) (v.metrics ++ m ∷ [])
    unfolding point
    next-Bests rest i f v n h after =
        let u = next i f v n in
        let m = point random config i f (evaluate random config i f v) n in
        subst (λ (ms : List (MetricPoint F)). IsRunningBest ms m × Bests (rest u) (ms ++ m ∷ []))
          (evaluate-metrics i f v) ((next-IsBest i f v n h).least, after u (next-IsBest i f v n h))

    proceed-Bests :
        (rest : Search F → Run F) (i : ℕ) (v : Search F)
        → IsBestSearch v
        → ((u : Search F) → IsBestSearch u → Bests (rest u) u.metrics)
        → Bests (proceed random config rest i v) v.metrics
    unfolding proceed
    proceed-Bests rest i v h after =
        elim (Option-cases (get_elem? config.fidelities (i % length config.fidelities))) [
          | inl absent ↦ rw (absent, proceed) tt
          | inr (f, there) ↦ elim (Bool-cases (d.lt config.budget (d.add v.cumulative_cost f))) [
            | inl over ↦ rw (there, over, proceed) (conclude-Bests v v.metrics refl h)
            | inr fits ↦ rw (there, fits, proceed) (λ n. next-Bests rest i f v n h after)
          ]
        ]

    loop-Bests :
        (rounds i : ℕ) (v : Search F)
        → IsBestSearch v
        → Bests (loop random config rounds i v) v.metrics
    unfolding loop
    loop-Bests zero i v h = conclude-Bests v v.metrics refl h
    loop-Bests (suc rounds) i v h = elim [
      | true ↦ tt
      | false ↦ elim [
        | true ↦ tt
        | false ↦
            proceed-Bests (loop random config rounds (i + 1)) i v h (loop-Bests rounds (i + 1))
      ]
    ]

    -- Given the order laws of the floats, for every answer of the callbacks: at each point that the
    -- demo engine reports, no objective so far is below the point's best objective; and of a result
    -- no reported objective is below that of the recommendation, whose objective, candidate and
    -- fidelity are those of a reported point, unless its objective is infinite.
    pub execute-IsRecommended :
        (fail : Bool) → Behaves IsRunningBest IsRecommended AnyRaise (execute random config fail) []
    unfolding execute
    execute-IsRecommended true = tt
    execute-IsRecommended false = elim (Bool-cases (str_eq config.benchmark "hartmann6")) [
      | inl known ↦ rw known (
          loop-Bests (iterations random config) 0 start
            (record { least = tt; attained = inr refl }))
      | inr unknown ↦ rw unknown tt
    ]
