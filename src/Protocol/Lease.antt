-- ===== src/Protocol/Lease.antt =====
-- The writes to one record beside its status and its lease: the callbacks of worker.py and
-- service.py.
use azure_ml_optimization_pl.Base.{
  ℕ, String, eq_iff, ◌<◌, ◌≡◌, ◌≢◌, refl, ◌∙◌, ap, true, false, Option, none, some, List, [], ◌∷◌,
  arith, All, ◌+◌,
}
use azure_ml_optimization_pl.Double.{Double}
use azure_ml_optimization_pl.Domain.{running, terminal, ExperimentRecord}
use azure_ml_optimization_pl.Repository.{Times, prepare}
use azure_ml_optimization_pl.Service.Changes.{cancel, mark_dispatched}
use azure_ml_optimization_pl.Worker.Changes.{
  guarded, claim, mark_tracking_failed, lapsed, renew_lease, set_run, record_point, complete,
  finish,
}
use azure_ml_optimization_pl.Protocol.{
  Update, cancels, dispatches, claims, renews, runs, points, completes, finishes, marks, change_of,
  write, writes,
}

module _ {F : Type 0} where
  -- What a finished job has to show: all of its record but the metadata, the time of the dispatch,
  -- and the version and time of the last write.
  abbrev pub outcome : ExperimentRecord F → ExperimentRecord F
  outcome r = record r { result_metadata = []; dispatched_at = none; version = 0; updated_at = 0 }

  -- What the holder of a lease has written: all of its record but the traces that a request to
  -- cancel, a dispatch and a write leave.
  abbrev pub holding : ExperimentRecord F → ExperimentRecord F
  holding r = record r {
    status = running;
    cancel_requested = false;
    dispatched_at = none;
    version = 0;
    updated_at = 0;
  }

  abbrev pub owner_of : Update F → Option String
  owner_of cancels = none
  owner_of dispatches = none
  owner_of (claims o n) = some o
  owner_of (renews o n) = some o
  owner_of (runs o i) = some o
  owner_of (points o m) = some o
  owner_of (completes o x uris n) = some o
  owner_of (finishes o retry e) = some o
  owner_of (marks o) = some o

module _ {F : Type 0} ⦃d : Double F⦄ where
  pub write-outcome :
      (t : Times) (u : Update F) (r : ExperimentRecord F)
      → terminal r.status ≡ true
      → outcome (write (t, u) r) ≡ outcome r
  unfolding write change_of prepare guarded claim cancel mark_dispatched mark_tracking_failed
  write-outcome t cancels r h = ground arith
  write-outcome t u r h = ground arith

  -- Once a job has ended, no write of any process changes its outcome: status, times, progress,
  -- recommendation, failure, history and configuration stay.
  pub writes-outcome :
      (ws : List (Times × Update F)) (r : ExperimentRecord F)
      → terminal r.status ≡ true
      → outcome (writes ws r) ≡ outcome r
  unfolding writes
  writes-outcome [] r h = refl
  writes-outcome ((t, u) ∷ ws) r h =
      let same = write-outcome t u r h in
      writes-outcome ws (write (t, u) r)
        (ap (λ (x : ExperimentRecord F). terminal x.status) same ∙ h)
      ∙ same

  -- A write of another worker, or of the service, made while the lease runs.
  abbrev pub Foreign : String → ℕ → Times × Update F → Type 0
  Foreign owner expiry (t, u) = (owner_of u ≢ some owner) × (t.guarded_at < expiry)

  write-holding :
      (owner : String) (expiry : ℕ) (t : Times) (u : Update F) (r : ExperimentRecord F)
      → r.lease_owner ≡ some owner
      → r.lease_expires_at ≡ some expiry
      → Foreign owner expiry (t, u)
      → holding (write (t, u) r) ≡ holding r
  unfolding write change_of prepare guarded claim cancel mark_dispatched mark_tracking_failed
  write-holding owner expiry t cancels r o l f = ground arith
  write-holding owner expiry t dispatches r o l f = ground arith
  write-holding owner expiry t (claims x n) r o l f = ground (arith, eq_iff owner x)
  write-holding owner expiry t (renews x n) r o l f = ground (arith, eq_iff owner x)
  write-holding owner expiry t (runs x i) r o l f = ground (arith, eq_iff owner x)
  write-holding owner expiry t (points x i) r o l f = ground (arith, eq_iff owner x)
  write-holding owner expiry t (completes x i j k) r o l f = ground (arith, eq_iff owner x)
  write-holding owner expiry t (finishes x i j) r o l f = ground (arith, eq_iff owner x)
  write-holding owner expiry t (marks x) r o l f = ground (arith, eq_iff owner x)

  -- While a lease runs, whatever other workers and the service write to the record leaves all that
  -- its holder has written: only the status, the request to cancel, the dispatch, the version and the
  -- time of the last write can change.
  pub writes-holding :
      (owner : String) (expiry : ℕ) (ws : List (Times × Update F)) (r : ExperimentRecord F)
      → r.lease_owner ≡ some owner
      → r.lease_expires_at ≡ some expiry
      → All (Foreign owner expiry) ws
      → holding (writes ws r) ≡ holding r
  unfolding writes
  writes-holding owner expiry [] r o l f = refl
  writes-holding owner expiry ((t, u) ∷ ws) r o l f =
      let same = write-holding owner expiry t u r o l f.0 in
      writes-holding owner expiry ws (write (t, u) r)
        (ap (λ (x : ExperimentRecord F). x.lease_owner) same ∙ o)
        (ap (λ (x : ExperimentRecord F). x.lease_expires_at) same ∙ l) f.1
      ∙ same

  -- The owner of a record changes only by a claim, of a job that has not ended and whose lease has
  -- run out or was given up; the new owner is the one that claims, and an attempt is counted.
  pub owner_changes :
      (t : Times) (u : Update F) (r : ExperimentRecord F)
      → (write (t, u) r).lease_owner ≢ r.lease_owner
      → (owner : String) × (timeout : ℕ) × (u ≡ claims owner timeout)
        × ((write (t, u) r).lease_owner ≡ some owner)
        × (lapsed r.lease_expires_at t.guarded_at ≡ true)
        × (terminal r.status ≡ false)
        × ((write (t, u) r).attempts ≡ r.attempts + 1)
  unfolding write change_of prepare guarded claim cancel mark_dispatched mark_tracking_failed
      renew_lease set_run record_point complete finish
  owner_changes t cancels r h = absurd (h (ground arith))
  owner_changes t dispatches r h = absurd (h (ground arith))
  owner_changes t (claims x n) r h =
      let (owned, over, open_job, counted) : ((write (t, claims x n) r).lease_owner ≡ some x)
          × (lapsed r.lease_expires_at t.guarded_at ≡ true)
          × (terminal r.status ≡ false)
          × ((write (t, claims x n) r).attempts ≡ r.attempts + 1) =
        ground arith in
      (x, n, refl, owned, over, open_job, counted)
  owner_changes t (renews x n) r h = absurd (h (ground arith))
  owner_changes t (runs x i) r h = absurd (h (ground arith))
  owner_changes t (points x i) r h = absurd (h (ground arith))
  owner_changes t (completes x i j k) r h = absurd (h (ground arith))
  owner_changes t (finishes x i j) r h = absurd (h (ground arith))
  owner_changes t (marks x) r h = absurd (h (ground arith))
