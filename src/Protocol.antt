-- ===== src/Protocol.antt =====
-- Every write that the API service and the workers make to a stored record, as data: an `Update` is
-- a callback of `mutate` with its arguments, and a run is a sequence of such writes by any number
-- of processes, in any order and at any times. A crash is a sequence that goes on without the
-- crashed process. `append_metric`, which no process calls, is not among them.
pub mod Record
pub mod Lease
pub mod Runs
use azure_ml_optimization_pl.Base.{ℕ, String, Dict, Bool, List, [], ◌∷◌}
use azure_ml_optimization_pl.Double.{Double}
use azure_ml_optimization_pl.Errors.{Error, Result, ok, err}
use azure_ml_optimization_pl.Domain.{
  ExperimentConfig, ExperimentRecord, MetricPoint, EngineResult, Value, new_record,
}
use azure_ml_optimization_pl.Repository.{Times, Store, Change, prepare, mutate, create}
use azure_ml_optimization_pl.Service.Changes.{cancel, mark_dispatched}
use azure_ml_optimization_pl.Worker.Changes.{
  guarded, claim, renew_lease, set_run, mark_tracking_failed, finish, record_point, complete,
  status_after, failure_code, failure_message,
}

pub data Update (F : Type 0) : Type 0 where
  cancels dispatches : Update F
  claims : (owner : String) → (timeout : ℕ) → Update F
  renews : (owner : String) → (timeout : ℕ) → Update F
  runs : (owner run_id : String) → Update F
  points : (owner : String) → MetricPoint F → Update F
  completes : (owner : String) → EngineResult F → Dict String → (duration : F) → Update F
  finishes : (owner : String) → (retry : Bool) → Error → Update F
  marks : (owner : String) → Update F

-- A write to a repository. A submission carries what `ExperimentService.create` puts in a record.
pub data Act (F : Type 0) : Type 0 where
  submits :
      (created_at queued_at updated_at : ℕ)
      → (experiment_id job_id : String) → ExperimentConfig F
      → Dict (Value F)
      → Act F
  mutates : (experiment_id : String) → Update F → Act F

module _ {F : Type 0} ⦃d : Double F⦄ where
  unfoldable pub change_of : Update F → Change F
  change_of cancels = cancel
  change_of dispatches = mark_dispatched
  change_of (claims owner timeout) = claim owner timeout
  change_of (renews owner timeout) = guarded owner (renew_lease timeout)
  change_of (runs owner run_id) = guarded owner (set_run run_id)
  change_of (points owner m) = guarded owner (record_point m)
  change_of (completes owner result uris duration) = guarded owner (complete result uris duration)
  change_of (finishes owner retry e) =
      guarded owner (finish (status_after retry e) (failure_code e) (failure_message e))
  change_of (marks owner) = mark_tracking_failed owner

  -- A write that raises leaves the record as it is.
  abbrev pub after : ExperimentRecord F → Result (ExperimentRecord F) → ExperimentRecord F
  after r (ok r') = r'
  after r (err e) = r

  unfoldable pub write : Times × Update F → ExperimentRecord F → ExperimentRecord F
  write (t, u) r = after r (prepare (change_of u) t r)

  -- The writes to one record.
  unfoldable pub writes : List (Times × Update F) → ExperimentRecord F → ExperimentRecord F
  writes [] r = r
  writes (w ∷ ws) r = writes ws (write w r)

  unfoldable pub perform : Times × Act F → Store F → Store F
  perform (t, submits created_at queued_at updated_at id job_id config metadata) s =
      (create (new_record (d.literal 0 0) created_at queued_at updated_at id job_id config metadata)
        s).1
  perform (t, mutates id u) s = (mutate id (change_of u) t s).1

  unfoldable pub run : List (Times × Act F) → Store F → Store F
  run [] s = s
  run (a ∷ acts) s = run acts (perform a s)
