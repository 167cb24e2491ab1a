-- ===== src/Tracking.antt =====
-- tracking.py: `ExperimentTracker`, whose two fields are in `World`. The MLflow client and the
-- temporary directory are services; what is written to them is in the calls.
pub mod Kept
use azure_ml_optimization_pl.Base.{
  ℕ, suc, String, str_eq, Dict, insert, Bool, true, false, Option, none, some, List, [], ◌∷◌, ◌++◌,
  length, if◌then◌else◌,
}
use azure_ml_optimization_pl.Double.{Double}
use azure_ml_optimization_pl.Domain.{ExperimentConfig, MetricPoint, Value}
use azure_ml_optimization_pl.Exec.{Exec, pure, gets, modify, when, attempt, ◌>>=◌, ◌>>◌}
use azure_ml_optimization_pl.World.{
  World, Context, Call, set_tracking_uri, set_experiment, start_run, log_params, set_tags,
  log_metrics, log_summary, log_count, log_metric, set_tag, end_run, call,
}

module _ {F : Type 0} where
  abbrev optional : String → Option F → Dict F → Dict F
  optional key none metrics = metrics
  optional key (some x) metrics = insert key x metrics

  -- The dict that `metric` sends.
  unfoldable pub metric_values : MetricPoint F → Dict F
  metric_values m = optional "regret" m.regret (
      optional "objective" m.objective (
        ("best_objective", m.best_objective)
        ∷ ("cumulative_cost", m.cumulative_cost)
        ∷ ("fidelity", m.fidelity)
        ∷ []))

  -- `metrics[-1]`
  abbrev pub last? : List (MetricPoint F) → Option (MetricPoint F)
  last? [] = none
  last? (m ∷ []) = some m
  last? (m ∷ n ∷ ms) = last? (n ∷ ms)

  -- `count` in `finish`, from the last point and the number of points.
  abbrev pub count_of : MetricPoint F → ℕ → Option ℕ
  count_of m n = elim m.completed_evaluations [
    | some k ↦ some k
    | none ↦ elim m.objective [ some y ↦ some n | none ↦ none ]
  ]

  abbrev set_active : Bool → World F → World F
  set_active b w = record w { active = b }

  abbrev set_run_id : String → World F → World F
  set_run_id id w = record w { active = true; run_id = some id }

module _ {F : Type 0} ⦃d : Double F⦄ (c : Context F) where
  start_at : String → ExperimentConfig F → Exec (World F) (Option String)
  start_at uri config = do
    call c (set_tracking_uri uri)
    call c (set_experiment c.experiment_name)
    t ← call c (start_run c.experiment_id)
    modify (set_run_id t.reply)
    call c (log_params config)
    call c (set_tags (insert "experiment_id" c.experiment_id config.tags))
    gets (λ w. w.run_id)

  start_from : Option String → ExperimentConfig F → Exec (World F) (Option String)
  start_from none config = pure none
  start_from (some uri) config = if str_eq uri "" then pure none else start_at uri config

  unfoldable pub start : ExperimentConfig F → Exec (World F) (Option String)
  unfolding start_at start_from
  start config = start_from c.tracking_uri config

  send_metric : MetricPoint F → Exec (World F) (Option String)
  send_metric m = do call c (log_metrics (metric_values m) m.iteration); pure none

  unfoldable pub metric : MetricPoint F → Exec (World F) (Option String)
  unfolding send_metric
  metric m = do active ← gets (λ w. w.active); if active then send_metric m else pure none

  send_count : Option ℕ → Exec (World F) (Option String)
  send_count none = pure none
  send_count (some n) = do call c (log_count n); pure none

  send_last : Option (MetricPoint F) → ℕ → Exec (World F) (Option String)
  send_last none n = pure none
  send_last (some m) n = do
    call c (log_metric "final_best_objective" m.best_objective)
    call c (log_metric "final_cumulative_cost" m.cumulative_cost)
    send_count (count_of m n)

  end_with : String → Dict (Value F) → List (MetricPoint F) → Exec (World F) (Option String)
  end_with status summary metrics = do
    call c (log_summary summary)
    send_last (last? metrics) (length metrics)
    call c (set_tag "lifecycle_status" status)
    call c (end_run (if str_eq status "completed" then "FINISHED" else "FAILED"))
    modify (set_active false)
    pure none

  unfoldable pub finish :
      String → Dict (Value F) → List (MetricPoint F) → Exec (World F) (Option String)
  unfolding send_count send_last end_with
  finish status summary metrics = do
    active ← gets (λ w. w.active)
    if active then end_with status summary metrics else pure none

  end_failed : World F → World F
  end_failed w = set_active false (call c (end_run "FAILED") w).1

  -- The warning about a failed `end_run` is not kept.
  unfoldable pub close : World F → World F
  unfolding end_failed
  close w = elim w.active [ true ↦ end_failed w | false ↦ w ]
