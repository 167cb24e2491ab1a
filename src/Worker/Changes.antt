-- ===== src/Worker/Changes.antt =====
-- The callbacks that the worker hands to `mutate`, and how an exception of a run is classified.
use azure_ml_optimization_pl.Base.{
  ℕ, ◌+◌, ◌*◌, String, str_eq, Dict, insert, update, Bool, true, false, not, ◌&&◌, ◌||◌, Option,
  none, some, List, [], ◌∷◌, ltb, leb, ◌==◌, if◌then◌else◌,
}
use azure_ml_optimization_pl.Double.{Double, min_float}
use azure_ml_optimization_pl.Errors.{
  Error, ok, cancelled_error, worker_shutdown_error, lease_lost_error, engine_error, other, check,
}
use azure_ml_optimization_pl.Domain.{
  ExperimentStatus, queued, running, cancelled, completed, failed, terminal, MetricPoint,
  Recommendation, EngineResult, flag, number, links,
}
use azure_ml_optimization_pl.Repository.{Change}
use azure_ml_optimization_pl.Repository.Points.{upsert}

-- `timedelta(seconds=n)` in microseconds.
abbrev pub seconds : ℕ → ℕ
seconds n = n * 1000000

abbrev pub is_owner : Option String → String → Bool
is_owner none owner = false
is_owner (some o) owner = str_eq o owner

-- `lease is None or lease <= now`
abbrev pub lapsed : Option ℕ → ℕ → Bool
lapsed none now = true
lapsed (some expiry) now = leb expiry now

abbrev pub failure_code : Error → String
failure_code (engine_error m retryable code) = code
failure_code _ = "worker_error"

abbrev pub failure_message : Error → String
failure_message (engine_error m retryable code) = m
failure_message _ = "experiment execution failed"

-- Whether a run that ended in this exception is tried again.
abbrev pub retries : (max_attempts attempts : ℕ) → Error → Bool
retries max_attempts attempts (worker_shutdown_error m) = true
retries max_attempts attempts (engine_error m retryable code) =
    retryable && ltb attempts max_attempts
retries _ _ _ = false

abbrev pub status_after : Bool → Error → ExperimentStatus
status_after retry (cancelled_error m) = cancelled
status_after retry _ = if retry then queued else failed

module _ {F : Type 0} where
  -- `guarded` of `_owned`.
  unfoldable pub guarded : String → Change F → Change F
  guarded owner change t r =
      check
        (not (is_owner r.lease_owner owner)
          || terminal r.status
          || lapsed r.lease_expires_at t.guarded_at)
        (lease_lost_error "experiment ownership expired or changed") (change t r)

  -- `claim` of `_claim`, with the visibility timeout in seconds.
  unfoldable pub claim : String → ℕ → Change F
  claim owner timeout t r =
      check (terminal r.status || not (lapsed r.lease_expires_at t.guarded_at))
        (lease_lost_error "experiment already owned or terminal")
        (ok (record r {
          lease_owner = some owner;
          lease_expires_at = some (t.guarded_at + seconds timeout);
          attempts = r.attempts + 1;
          started_at = some t.guarded_at;
          status = running;
          failure = none;
        }))

  -- The λ of `refresh`.
  unfoldable pub renew_lease : ℕ → Change F
  renew_lease timeout t r =
      ok (record r { lease_expires_at = some (t.changed_at + seconds timeout) })

  -- The λ that stores the MLflow run.
  unfoldable pub set_run : String → Change F
  set_run run_id t r = ok (record r { mlflow_run_id = some run_id })

  -- `mark` of `_track`.
  unfoldable pub mark_tracking_failed : String → Change F
  mark_tracking_failed owner t r = ok (
      if is_owner r.lease_owner owner
      then record r {
        result_metadata = insert "tracking_delivery_failed" (flag true) r.result_metadata;
      }
      else r)

  -- `finish` of `process`. The constraint `attempts >= 1` of `FailureInfo` is checked when it is
  -- made.
  unfoldable pub finish : ExperimentStatus → (code message : String) → Change F
  finish failed code message t r = check (ltb r.attempts 1) (other "validation error") (
      ok (record r {
        status = failed;
        lease_expires_at = none;
        completed_at = some t.changed_at;
        failure =
            some
              (record { code = code; message = message; retryable = false; attempts = r.attempts });
      }))
  finish status code message t r = ok (record r {
    status = status;
    lease_expires_at = none;
    completed_at = if terminal status then some t.changed_at else none;
  })

module _ {F : Type 0} ⦃d : Double F⦄ where
  abbrev evaluations : MetricPoint F → Option ℕ
  evaluations m = elim m.completed_evaluations [
    | some n ↦ some n
    | none ↦ elim m.objective [ some y ↦ some (m.iteration + 1) | none ↦ none ]
  ]

  abbrev pub improves : F → Option (Recommendation F) → Bool
  improves y none = true
  improves y (some best) = d.lt y best.objective

  -- The recommendation after a point: its candidate, where that was evaluated at fidelity 1.0 and
  -- is better than the candidate so far.
  recommend :
      MetricPoint F
      → Option (List F)
      → Option F
      → Option (Recommendation F)
      → Option (Recommendation F)
  recommend m (some (x ∷ xs)) (some y) old =
      if d.eq m.fidelity (d.literal 1 0) && improves y old
      then some (record {
        candidate = x ∷ xs;
        objective = y;
        fidelity = d.literal 1 0;
        observed_at = m.recorded_at;
      })
      else old
  recommend m _ _ old = old

  -- `update` of `_record_metric`.
  unfoldable pub record_point : MetricPoint F → Change F
  unfolding recommend
  record_point m t r =
      let first = m.iteration == 0 in
      ok (record r {
        metric_history = upsert m (if first then [] else r.metric_history);
        completed_evaluations = evaluations m;
        current_best_objective = some m.best_objective;
        accumulated_cost = m.cumulative_cost;
        progress = min_float (d.literal 99 2) (d.div m.cumulative_cost r.configuration.budget);
        recommendation =
            recommend m m.candidate m.objective (if first then none else r.recommendation);
      })

  -- `complete` of `process`, with the links of the artifacts and the run time.
  unfoldable pub complete : EngineResult F → Dict String → F → Change F
  complete result artifact_uris duration t r =
      check r.cancel_requested (cancelled_error "cancellation requested") (
        ok (record r {
          status = completed;
          progress = d.literal 1 0;
          completed_at = some t.changed_at;
          recommendation = some result.recommendation;
          result_metadata =
              insert "runtime_seconds" (number duration) (
                insert "artifacts" (links artifact_uris)
                  (update r.result_metadata result.metadata));
        }))
