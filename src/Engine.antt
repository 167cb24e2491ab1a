-- ===== src/Engine.antt =====
-- engine.py. An engine run is a tree of its calls of the callbacks and the clock, each with what
-- the run does on every answer; an exception of a callback ends it. The numbers of
-- `random.Random(seed)` are a parameter.
pub mod Behaviour
pub mod Best
pub mod Finishing
use azure_ml_optimization_pl.Base.{
  ℕ, zero, suc, ◌+◌, ◌*◌, ◌%◌, String, str_eq, Bool, true, false, not, Option, none, some, List, [],
  ◌∷◌, ◌++◌, Dict, length, get_elem?, ltb, if◌then◌else◌,
}
use azure_ml_optimization_pl.Double.{Double, max_float}
use azure_ml_optimization_pl.Errors.{
  Error, cancelled_error, worker_shutdown_error, engine_error, other,
}
use azure_ml_optimization_pl.Domain.{
  ExperimentConfig, MetricPoint, Recommendation, EngineResult, Value, text, flag,
}

pub data Run (F : Type 0) : Type 0 where
  finished : EngineResult F → Run F
  raised : Error → Run F
  -- on_metric(point)
  reports : MetricPoint F → Run F → Run F
  -- is_cancelled(), should_stop(), utc_now()
  asks_cancelled : (Bool → Run F) → Run F
  asks_stop : (Bool → Run F) → Run F
  reads_clock : (ℕ → Run F) → Run F

abbrev min_ℕ : ℕ → ℕ → ℕ
min_ℕ a b = if ltb b a then b else a

abbrev max_ℕ : ℕ → ℕ → ℕ
max_ℕ a b = if ltb a b then b else a

abbrev Row : Type 0 → Type 0
Row F = record { alpha : F; a : List F; p : List F }

-- The variables of the loop of `execute`.
pub record Search (F : Type 0) : Type 0 where
  pub best : F
  pub best_candidate : List F
  pub best_fidelity : F
  pub cumulative_cost : F
  pub metrics : List (MetricPoint F)

module _ {F : Type 0} ⦃d : Double F⦄ where
  open d use {literal, lt, add, sub, mul, neg}

  abbrev tenths : ℕ → F
  tenths n = literal n 1

  abbrev myriadths : ℕ → F
  myriadths n = literal n 4

  -- _HARTMANN_ALPHA, _HARTMANN_A and _HARTMANN_P, row by row.
  unfoldable pub hartmann_rows : List (Row F)
  hartmann_rows =
      record {
        alpha = tenths 10;
        a = tenths 100 ∷ tenths 30 ∷ tenths 170 ∷ tenths 35 ∷ tenths 17 ∷ tenths 80 ∷ [];
        p =
            myriadths 1312
            ∷ myriadths 1696
            ∷ myriadths 5569
            ∷ myriadths 124
            ∷ myriadths 8283
            ∷ myriadths 5886
            ∷ [];
      }
      ∷ record {
        alpha = tenths 12;
        a = literal 5 2 ∷ tenths 100 ∷ tenths 170 ∷ tenths 1 ∷ tenths 80 ∷ tenths 140 ∷ [];
        p =
            myriadths 2329
            ∷ myriadths 4135
            ∷ myriadths 8307
            ∷ myriadths 3736
            ∷ myriadths 1004
            ∷ myriadths 9991
            ∷ [];
      }
      ∷ record {
        alpha = tenths 30;
        a = tenths 30 ∷ tenths 35 ∷ tenths 17 ∷ tenths 100 ∷ tenths 170 ∷ tenths 80 ∷ [];
        p =
            myriadths 2348
            ∷ myriadths 1451
            ∷ myriadths 3522
            ∷ myriadths 2883
            ∷ myriadths 3047
            ∷ myriadths 6650
            ∷ [];
      }
      ∷ record {
        alpha = tenths 32;
        a = tenths 170 ∷ tenths 80 ∷ literal 5 2 ∷ tenths 100 ∷ tenths 1 ∷ tenths 140 ∷ [];
        p =
            myriadths 4047
            ∷ myriadths 8828
            ∷ myriadths 8732
            ∷ myriadths 5743
            ∷ myriadths 1091
            ∷ myriadths 381
            ∷ [];
      }
      ∷ []

  -- The terms of the inner sum. The three lists have six elements each.
  terms : List F → List F → List F → List F
  terms (a ∷ rest) (x ∷ xs) (p ∷ ps) = mul a (d.square (sub x p)) ∷ terms rest xs ps
  terms _ _ _ = []

  outer : List F → F → List (Row F) → F
  outer x acc [] = acc
  outer x acc (row ∷ rows) =
      outer x (add acc (mul row.alpha (d.exp (neg (d.sum (terms row.a x row.p)))))) rows

  unfoldable pub hartmann6 : List F → F
  unfolding hartmann_rows terms outer
  hartmann6 x = neg (outer x (literal 0 0) hartmann_rows)

  abbrev start : Search F
  start = record {
    best = d.inf;
    best_candidate = [];
    best_fidelity = literal 1 0;
    cumulative_cost = literal 0 0;
    metrics = [];
  }

  metadata : Dict (Value F)
  metadata =
      ("engine", text "deterministic_platform_demo")
      ∷ ("research_engine", flag false)
      ∷ ("warning", text "Not an MFBO quality or performance result.")
      ∷ []

  -- The code behind the loop.
  unfoldable pub conclude : Search F → Run F
  unfolding metadata
  conclude v = elim v.metrics [
    | [] ↦
        raised (engine_error "budget was insufficient for one evaluation" false "budget_exhausted")
    | m ∷ ms ↦ reads_clock λ now. finished (record {
      metrics = v.metrics;
      recommendation = record {
        candidate = v.best_candidate;
        objective = v.best;
        fidelity = v.best_fidelity;
        observed_at = now;
      };
      metadata = metadata;
    })
  ]

  module _ (random : (seed index : ℕ) → F) (config : ExperimentConfig F) where
    -- The six numbers that an iteration draws.
    unfoldable pub sample : ℕ → List F
    sample i =
        let draw : ℕ → F = λ k. random config.seed (i * 6 + k) in
        draw 0 ∷ draw 1 ∷ draw 2 ∷ draw 3 ∷ draw 4 ∷ draw 5 ∷ []

    unfoldable pub objective_at : ℕ → F → F
    objective_at i fidelity =
        add (hartmann6 (sample i)) (mul (sub (literal 1 0) fidelity) (literal 1 1))

    -- The state after the evaluation of an iteration, but for `metrics.append`.
    unfoldable pub evaluate : ℕ → F → Search F → Search F
    evaluate i fidelity v =
        let spent = record v { cumulative_cost = add v.cumulative_cost fidelity } in
        if lt (objective_at i fidelity) v.best
        then record spent {
          best = objective_at i fidelity;
          best_candidate = sample i;
          best_fidelity = fidelity;
        }
        else spent

    unfoldable pub point : ℕ → F → Search F → ℕ → MetricPoint F
    point i fidelity v now = record {
      iteration = i;
      objective = some (objective_at i fidelity);
      best_objective = v.best;
      cumulative_cost = v.cumulative_cost;
      regret = some (max_float (literal 0 0) (sub v.best (neg (literal 3322368011415515 15))));
      fidelity = fidelity;
      strategy = config.strategy;
      candidate = some (sample i);
      completed_evaluations = none;
      recorded_at = now;
    }

    -- A round of the `for` loop behind its two checks, before the rounds `rest`.
    unfoldable pub proceed : (Search F → Run F) → ℕ → Search F → Run F
    proceed rest i v = elim (get_elem? config.fidelities (i % length config.fidelities)) [
      | none ↦ raised (other "integer modulo by zero")
      | some fidelity ↦
          if lt config.budget (add v.cumulative_cost fidelity)
          then conclude v
          else reads_clock λ now.
            let w = evaluate i fidelity v in
            let m = point i fidelity w now in
            reports m (rest (record w { metrics = w.metrics ++ m ∷ [] }))
    ]

    -- The rounds of the loop that are left, from iteration `i`.
    unfoldable pub loop : ℕ → ℕ → Search F → Run F
    loop zero i v = conclude v
    loop (suc rounds) i v = asks_cancelled λ stop.
        if stop
        then raised (cancelled_error "cancellation requested")
        else asks_stop λ shutdown.
          if shutdown
          then raised (worker_shutdown_error "worker is shutting down")
          else proceed (loop rounds (i + 1)) i v

    unfoldable pub iterations : ℕ
    iterations = min_ℕ config.max_iterations (max_ℕ 1 (d.to_int config.budget))

    unfoldable pub execute : (fail : Bool) → Run F
    execute fail =
        if fail
        then raised (engine_error "injected demo-engine failure" false "demo_failure")
        else if not (str_eq config.benchmark "hartmann6")
        then raised
            (engine_error "the demo engine supports hartmann6" false "demo_benchmark_unsupported")
        else loop iterations 0 start
