-- ===== src/Engine/Behaviour.antt =====
-- Runs of the demo engine, for every answer of its callbacks.
use azure_ml_optimization_pl.Base.{
  ℕ, zero, suc, ◌+◌, ◌%◌, ◌<◌, ◌≡◌, ◌≢◌, refl, sym, ap, ◌∙◌, inl, inr, Bool, true, false,
  Bool-cases, Option-cases, str_eq, some, List, [], ◌∷◌, ◌++◌, length, length-append, get_elem?,
  arith, subst,
}
use azure_ml_optimization_pl.Double.{Double}
use azure_ml_optimization_pl.Errors.{Error}
use azure_ml_optimization_pl.Domain.{ExperimentConfig, MetricPoint, EngineResult}
use azure_ml_optimization_pl.Engine.{
  Run, finished, raised, reports, asks_cancelled, asks_stop, reads_clock, Search, start, conclude,
  evaluate, point, loop, iterations, execute, proceed,
}

module _ {F : Type 0} where
  -- On every branch of a run, behind the points of `history`: each point reported satisfies `P`,
  -- each result `R`, each exception `E`.
  abbrev pub Behaves :
      (P : List (MetricPoint F) → MetricPoint F → Type 0)
      (R : List (MetricPoint F) → EngineResult F → Type 0) (E : Error → Type 0)
      → Run F
      → List (MetricPoint F)
      → Type 0
  Behaves P R E (finished result) history = R history result
  Behaves P R E (raised e) history = E e
  Behaves P R E (reports m rest) history = P history m × Behaves P R E rest (history ++ m ∷ [])
  Behaves P R E (asks_cancelled rest) history = (b : Bool) → Behaves P R E (rest b) history
  Behaves P R E (asks_stop rest) history = (b : Bool) → Behaves P R E (rest b) history
  Behaves P R E (reads_clock rest) history = (n : ℕ) → Behaves P R E (rest n) history

module _ {F : Type 0} ⦃d : Double F⦄ (random : ℕ → ℕ → F) (config : ExperimentConfig F) where
  -- A point of the run: the next iteration, below the limit, at the fidelity of its turn, and with
  -- a cost so far that is not above the budget.
  pub record InBudget (history : List (MetricPoint F)) (m : MetricPoint F) : Type 0 where
    pub in_turn : m.iteration ≡ length history
    pub limited : m.iteration < iterations random config
    pub scheduled :
        get_elem? config.fidelities (m.iteration % length config.fidelities) ≡ some m.fidelity
    pub affordable : d.lt config.budget m.cumulative_cost ≡ false

  -- The result has the points that were reported, and there is one.
  pub record Complete (history : List (MetricPoint F)) (result : EngineResult F) : Type 0 where
    pub reported : result.metrics ≡ history
    pub some_point : history ≢ []

  abbrev pub AnyError : Error → Type 0
  AnyError e = Unit

  conclude-Behaves_at :
      (v : Search F) (ms : List (MetricPoint F))
      → v.metrics ≡ ms
      → Behaves InBudget Complete AnyError (conclude v) v.metrics
  unfolding conclude
  conclude-Behaves_at v [] e = rw (e, conclude) tt
  conclude-Behaves_at v (m ∷ ms) e =
      rw (e, conclude) (λ n. record { reported = e; some_point = λ x. cc })

  evaluate_cost :
      (i : ℕ) (f : F) (v : Search F)
      → ((evaluate random config i f v).cumulative_cost ≡ d.add v.cumulative_cost f)
        × ((evaluate random config i f v).metrics ≡ v.metrics)
  unfolding evaluate
  evaluate_cost i f v = ground arith

  module _ (rest : Search F → Run F) (i : ℕ) (v : Search F) (at_i : i ≡ length v.metrics) where
    point-InBudget :
        (f : F) (n : ℕ)
        → i < iterations random config
        → get_elem? config.fidelities (i % length config.fidelities) ≡ some f
        → d.lt config.budget (d.add v.cumulative_cost f) ≡ false
        → InBudget v.metrics (point random config i f (evaluate random config i f v) n)
    unfolding point
    point-InBudget f n limited there fits = record {
      in_turn = at_i;
      limited = limited;
      scheduled = there;
      affordable = rw (evaluate_cost i f v).0 fits;
    }

    step :
        (f : F) (n : ℕ)
        → ((w : Search F)
            → length w.metrics ≡ i + 1
            → Behaves InBudget Complete AnyError (rest w) w.metrics)
        → let w = evaluate random config i f v in
          let m = point random config i f w n in
          Behaves InBudget Complete AnyError
            (rest (record w { metrics = w.metrics ++ m ∷ [] }))
            (v.metrics ++ m ∷ [])
    step f n after =
        let w = evaluate random config i f v in
        let m = point random config i f w n in
        let w' : Search F = record w { metrics = w.metrics ++ m ∷ [] } in
        let same = (evaluate_cost i f v).1 in
        subst
          (λ (ms : List (MetricPoint F)).
            Behaves InBudget Complete AnyError (rest w') (ms ++ m ∷ []))
          same (after w' (length-append w.metrics (m ∷ []) ∙ omega (arith, at_i, ap length same)))

    proceed-Behaves :
        i < iterations random config
        → ((w : Search F)
            → length w.metrics ≡ i + 1
            → Behaves InBudget Complete AnyError (rest w) w.metrics)
        → Behaves InBudget Complete AnyError (proceed random config rest i v) v.metrics
    unfolding proceed
    proceed-Behaves limited after =
        elim (Option-cases (get_elem? config.fidelities (i % length config.fidelities))) [
          | inl absent ↦ rw (absent, proceed) tt
          | inr (f, there) ↦ elim (Bool-cases (d.lt config.budget (d.add v.cumulative_cost f))) [
            | inl over ↦ rw (there, over, proceed) (conclude-Behaves_at v v.metrics refl)
            | inr fits ↦
                rw (there, fits, proceed)
                  (λ n. (point-InBudget f n limited there fits, step f n after))
          ]
        ]

  loop-Behaves :
      (rounds i : ℕ) (v : Search F)
      → i ≡ length v.metrics
      → i + rounds ≡ iterations random config
      → Behaves InBudget Complete AnyError (loop random config rounds i v) v.metrics
  unfolding loop
  loop-Behaves zero i v e n = conclude-Behaves_at v v.metrics refl
  loop-Behaves (suc rounds) i v e n = elim [
    | true ↦ tt
    | false ↦ elim [
      | true ↦ tt
      | false ↦
          proceed-Behaves (loop random config rounds (i + 1)) i v e (omega arith)
            λ w l. loop-Behaves rounds (i + 1) w (sym l) (omega arith)
    ]
  ]

  -- Every point of a run of the demo engine is the next iteration, below the limit on iterations,
  -- at the fidelity whose turn it is, and leaves the cost within the budget; and a result has
  -- exactly the points that were reported, of which there is one at least. This holds for every
  -- answer of the callbacks.
  pub execute-Behaves :
      (fail : Bool) → Behaves InBudget Complete AnyError (execute random config fail) []
  unfolding execute
  execute-Behaves true = tt
  execute-Behaves false = elim (Bool-cases (str_eq config.benchmark "hartmann6")) [
    | inl known ↦ rw known (loop-Behaves (iterations random config) 0 start refl (omega arith))
    | inr unknown ↦ rw unknown tt
  ]
