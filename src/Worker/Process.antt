-- ===== src/Worker/Process.antt =====
-- `process` of worker.py, in an arbitrary environment (`Context`), for an arbitrary engine. Logging
-- and the Prometheus counters are left out; so is the content of the artifacts.
use azure_ml_optimization_pl.Base.{
  ℕ, String, str_eq, Dict, insert, Bool, true, false, not, ◌||◌, Option, none, some, [], ◌∷◌, ltb,
  if◌then◌else◌,
}
use Prim.Native.String.{◌++◌}
use azure_ml_optimization_pl.Double.{Double}
use azure_ml_optimization_pl.Errors.{Error, cancelled_error, lease_lost_error, engine_error}
use azure_ml_optimization_pl.Domain.{
  ExperimentStatus, queued, running, cancelling, cancelled, completed, failed, terminal,
  ExperimentConfig, ExperimentRecord, MetricPoint, EngineResult, Value, number, links,
}
use azure_ml_optimization_pl.Engine.{
  Run, finished, raised, reports, asks_cancelled, asks_stop, reads_clock,
}
use azure_ml_optimization_pl.Protocol.{claims, renews, runs, points, completes, finishes, marks}
use azure_ml_optimization_pl.Exec.{
  Exec, pure, raise, gets, modify, raise_if, attempt, finally, ◌>>=◌, ◌>>◌,
}
use azure_ml_optimization_pl.World.{
  World, Context, Settlement, ack, requeue, renew_visibility, put, acknowledge, abandon, next_turn,
  update, fetch, call,
}
use azure_ml_optimization_pl.Tracking
use azure_ml_optimization_pl.Worker.Changes.{is_owner, lapsed, retries, status_after}

-- `status.value`
abbrev pub value : ExperimentStatus → String
value queued = "queued"
value running = "running"
value cancelling = "cancelling"
value cancelled = "cancelled"
value completed = "completed"
value failed = "failed"

abbrev cancellation : Error
cancellation = cancelled_error "cancellation requested"

module _ {F : Type 0} where
  abbrev pub set_action : Settlement → World F → World F
  set_action a w = record w { action = some a }

  -- The thread starts with an event that is not set.
  abbrev pub start_thread : World F → World F
  start_thread w = record w { renewing = true; lost = false }

  abbrev pub stop_thread : World F → World F
  stop_thread w = record w { renewing = false }

module _ {F : Type 0} ⦃d : Double F⦄ (c : Context F) where
  -- `_track`
  unfoldable pub track : Exec (World F) (Option String) → Exec (World F) (Option String)
  track operation = attempt operation λ e. do update c (marks c.owner); pure none

  -- `_record_metric`
  unfoldable pub record_metric : MetricPoint F → Exec (World F) (Option String)
  record_metric m = do update c (points c.owner m); track (Tracking.metric c m)

  -- `cancelled` of `process`
  unfoldable pub check_cancelled : Exec (World F) Bool
  check_cancelled = do
    lost ← gets (λ w. w.lost)
    raise_if lost (lease_lost_error "queue visibility renewal failed")
    (current, now) ← fetch c
    raise_if (not (is_owner current.lease_owner c.owner) || lapsed current.lease_expires_at now)
        (lease_lost_error "experiment ownership changed")
    pure current.cancel_requested

  -- The engine's run with the callbacks of `process`.
  unfoldable pub interpret : Run F → Exec (World F) (EngineResult F)
  interpret (finished result) = pure result
  interpret (raised e) = raise e
  interpret (reports m rest) = record_metric m >>= λ _. interpret rest
  interpret (asks_cancelled rest) = check_cancelled >>= λ b. interpret (rest b)
  interpret (asks_stop rest) =
      next_turn c >>= λ t. gets (λ w. w.stopping) >>= λ b. interpret (rest b)
  interpret (reads_clock rest) = next_turn c >>= λ t. interpret (rest t.times.changed_at)

  -- The MLflow run, if there is one, goes into the record.
  unfoldable pub store_run : Option String → Exec (World F) (Unit {0})
  store_run none = pure tt
  store_run (some run_id) =
      if str_eq run_id "" then pure tt else do update c (runs c.owner run_id); pure tt

  unfoldable pub put_artifacts : Exec (World F) (Dict String)
  put_artifacts =
      let prefix : String = "attempts/" ++ (c.owner ++ "/") in
      do
        configuration ← call c (put (prefix ++ "configuration.json"))
        result ← call c (put (prefix ++ "result.json"))
        plot ← call c (put (prefix ++ "convergence.svg"))
        pure (
            ("configuration", configuration.reply)
            ∷ ("result", result.reply)
            ∷ ("convergence_plot", plot.reply)
            ∷ [])

  unfoldable pub summary_of : EngineResult F → Dict String → F → Dict (Value F)
  summary_of result uris duration =
      insert "artifacts" (links uris) (insert "runtime_seconds" (number duration) result.metadata)

  -- The end of the `try` block, once the engine has returned.
  unfoldable pub conclude : EngineResult F → Exec (World F) (Unit {0})
  conclude result = do
    stop ← check_cancelled
    raise_if stop cancellation
    uris ← put_artifacts
    t ← next_turn c
    update c (completes c.owner result uris t.elapsed)
    modify (set_action ack)
    track (Tracking.finish c "completed" (summary_of result uris t.elapsed) result.metrics)
    pure tt

  -- The `try` block under the lease, with the record that `_claim` returned.
  unfoldable pub work :
      (ExperimentConfig F → Run F) → ExperimentRecord F → Exec (World F) (Unit {0})
  work engine r = do
    raise_if r.cancel_requested cancellation
    raise_if (ltb c.max_attempts r.attempts)
        (engine_error "worker attempt limit reached" false "attempt_limit")
    run_id ← track (Tracking.start c r.configuration)
    store_run run_id
    result ← interpret (engine r.configuration)
    conclude result

  -- The action after a run that ended in an exception.
  abbrev pub settlement : Bool → Settlement
  settlement retry = if retry then requeue else ack

  -- The code of `except Exception`.
  unfoldable pub fail_with : ℕ → Error → Exec (World F) (Unit {0})
  fail_with attempts e =
      let retry = retries c.max_attempts attempts e in
      do
        lost ← gets (λ w. w.lost)
        raise_if lost (lease_lost_error "lease lost during execution")
        update c (finishes c.owner retry e)
        modify (set_action (settlement retry))
        track (Tracking.finish c (value (status_after retry e)) [] [])
        pure tt

  -- The two `except` clauses.
  unfoldable pub handle : ℕ → Error → Exec (World F) (Unit {0})
  handle attempts (lease_lost_error m) = raise (lease_lost_error m)
  handle attempts e = fail_with attempts e

  -- The `with` block: `__enter__`, the work, `__exit__`.
  unfoldable pub under_lease :
      (ExperimentConfig F → Run F) → ExperimentRecord F → Exec (World F) (Unit {0})
  under_lease engine r = do
    call c renew_visibility
    update c (renews c.owner c.timeout)
    modify start_thread
    finally (attempt (work engine r) (handle r.attempts)) stop_thread

  unfoldable pub claim_and_work : (ExperimentConfig F → Run F) → Exec (World F) (Unit {0})
  claim_and_work engine = do r ← update c (claims c.owner c.timeout); under_lease engine r

  -- The outer `try` block.
  unfoldable pub deliver : (ExperimentConfig F → Run F) → Exec (World F) (Unit {0})
  deliver engine = do
    (r, now) ← fetch c
    if terminal r.status then modify (set_action ack) else claim_and_work engine

  -- The `finally` block behind `tracker.close()`. A failure of the queue is logged.
  unfoldable pub settle : World F → World F
  settle w = elim w.action [
    | none ↦ w
    | some ack ↦ (call c acknowledge w).1
    | some requeue ↦ (call c abandon w).1
  ]

  unfoldable pub process : (ExperimentConfig F → Run F) → World F → World F
  process engine w = settle (Tracking.close c (attempt (deliver engine) (λ e. pure tt) w).1)
