-- ===== src/Protocol/Record.antt =====
-- The invariant of a stored record under every write.
use azure_ml_optimization_pl.Base.{
  ℕ, String, ◌≤◌, ◌≡◌, ◌⊎◌, inl, inr, Bool, true, false, Option, none, some, [], arith, Dict, ◌==◌,
  if◌then◌else◌,
}
use azure_ml_optimization_pl.Double.{Double}
use azure_ml_optimization_pl.Errors.{Error}
use azure_ml_optimization_pl.Domain.{
  queued, running, cancelling, cancelled, completed, failed, terminal, ExperimentRecord,
  ExperimentConfig, Value, MetricPoint, EngineResult, new_record,
}
use azure_ml_optimization_pl.Repository.{Times, prepare}
use azure_ml_optimization_pl.Repository.Points.{Rising, upsert-Rising}
use azure_ml_optimization_pl.Service.Changes.{cancel, mark_dispatched}
use azure_ml_optimization_pl.Worker.Changes.{
  guarded, claim, renew_lease, set_run, mark_tracking_failed, finish, record_point, complete,
  status_after,
}
use azure_ml_optimization_pl.Protocol.{
  Update, cancels, dispatches, claims, renews, runs, points, completes, finishes, marks, change_of,
  write,
}

abbrev pub is_some {ℓ} : {A : Type ℓ} → Option A → Bool
is_some none = false
is_some (some a) = true

status_after_cases :
    (retry : Bool) (e : Error)
    → (status_after retry e ≡ queued)
      ⊎ (status_after retry e ≡ cancelled)
      ⊎ (status_after retry e ≡ failed)
status_after_cases retry e = ground arith

module _ {F : Type 0} ⦃d : Double F⦄ where
  pub record IsSound (r : ExperimentRecord F) : Type 0 where
    pub versioned : 1 ≤ r.version
    pub counted : is_some r.lease_owner ≡ true → 1 ≤ r.attempts
    pub running_owned :
        r.status ≡ running → (is_some r.lease_owner ≡ true) × (is_some r.started_at ≡ true)
    pub cancelling_asked : r.status ≡ cancelling → r.cancel_requested ≡ true
    pub ended : is_some r.completed_at ≡ terminal r.status
    pub completed_result :
        r.status ≡ completed
        → (is_some r.recommendation ≡ true)
          × (r.progress ≡ d.literal 1 0)
          × (r.cancel_requested ≡ false)
    pub failed_info : r.status ≡ failed → is_some r.failure ≡ true
    pub info_failed : is_some r.failure ≡ true → r.status ≡ failed
    pub rising : Rising r.metric_history

  cancels-IsSound :
      (t : Times) (r : ExperimentRecord F) → IsSound r → IsSound (write (t, cancels) r)
  unfolding write change_of prepare cancel
  cancels-IsSound t r v = ground arith

  claims-IsSound :
      (t : Times) (owner : String) (timeout : ℕ) (r : ExperimentRecord F)
      → IsSound r
      → IsSound (write (t, claims owner timeout) r)
  unfolding write change_of prepare claim
  claims-IsSound t owner timeout r v = ground arith

  dispatches-IsSound :
      (t : Times) (r : ExperimentRecord F) → IsSound r → IsSound (write (t, dispatches) r)
  unfolding write change_of prepare mark_dispatched
  dispatches-IsSound t r v = ground arith

  renews-IsSound :
      (t : Times) (owner : String) (timeout : ℕ) (r : ExperimentRecord F)
      → IsSound r
      → IsSound (write (t, renews owner timeout) r)
  unfolding write change_of prepare guarded renew_lease
  renews-IsSound t owner timeout r v = ground arith

  runs-IsSound :
      (t : Times) (owner run_id : String) (r : ExperimentRecord F)
      → IsSound r
      → IsSound (write (t, runs owner run_id) r)
  unfolding write change_of prepare guarded set_run
  runs-IsSound t owner run_id r v = ground arith

  marks-IsSound :
      (t : Times) (owner : String) (r : ExperimentRecord F)
      → IsSound r
      → IsSound (write (t, marks owner) r)
  unfolding write change_of prepare mark_tracking_failed
  marks-IsSound t owner r v = ground arith

  points-IsSound :
      (t : Times) (owner : String) (m : MetricPoint F) (r : ExperimentRecord F)
      → IsSound r
      → IsSound (write (t, points owner m) r)
  unfolding write change_of prepare guarded record_point
  points-IsSound t owner m r v =
      ground (arith, upsert-Rising m (if m.iteration == 0 then [] else r.metric_history))

  completes-IsSound :
      (t : Times) (owner : String) (result : EngineResult F) (uris : Dict String) (duration : F)
      (r : ExperimentRecord F)
      → IsSound r
      → IsSound (write (t, completes owner result uris duration) r)
  unfolding write change_of prepare guarded complete
  completes-IsSound t owner result uris duration r v = ground arith

  finishes-IsSound :
      (t : Times) (owner : String) (retry : Bool) (e : Error) (r : ExperimentRecord F)
      → IsSound r
      → IsSound (write (t, finishes owner retry e) r)
  unfolding write change_of prepare guarded finish
  finishes-IsSound t owner retry e r v = elim (status_after_cases retry e) [
    | inl s ↦ rw s (ground arith)
    | inr (inl s) ↦ rw s (ground arith)
    | inr (inr s) ↦ rw s (ground arith)
  ]

  -- Every write of every process keeps a record sound, whether it succeeds or raises.
  pub write-IsSound :
      (t : Times) (u : Update F) (r : ExperimentRecord F) → IsSound r → IsSound (write (t, u) r)
  write-IsSound t cancels r v = cancels-IsSound t r v
  write-IsSound t dispatches r v = dispatches-IsSound t r v
  write-IsSound t (claims o n) r v = claims-IsSound t o n r v
  write-IsSound t (renews o n) r v = renews-IsSound t o n r v
  write-IsSound t (runs o i) r v = runs-IsSound t o i r v
  write-IsSound t (points o m) r v = points-IsSound t o m r v
  write-IsSound t (completes o x uris n) r v = completes-IsSound t o x uris n r v
  write-IsSound t (finishes o retry e) r v = finishes-IsSound t o retry e r v
  write-IsSound t (marks o) r v = marks-IsSound t o r v

  pub new_record-IsSound :
      (zero : F) (created_at queued_at updated_at : ℕ) (id job_id : String)
      (config : ExperimentConfig F) (metadata : Dict (Value F))
      → IsSound (new_record zero created_at queued_at updated_at id job_id config metadata)
  unfolding new_record
  new_record-IsSound zero created_at queued_at updated_at id job_id config metadata = ground arith
