-- ===== src/Worker/Safety.antt =====
-- The acknowledgement of `process` of worker.py, in every environment.
use azure_ml_optimization_pl.Base.{
  ℕ, String, Dict, ◌≡◌, refl, Bool, true, false, Bool-cases, inl, inr, Option, none, some, arith,
  if◌then◌else◌, ◌⊎◌,
}
use azure_ml_optimization_pl.Double.{Double}
use azure_ml_optimization_pl.Errors.{Error, ok, lease_lost_error}
use azure_ml_optimization_pl.Domain.{
  terminal, ExperimentConfig, ExperimentRecord, EngineResult, ExperimentStatus, failed,
}
use azure_ml_optimization_pl.Repository.{Times, prepare}
use azure_ml_optimization_pl.Engine.{Run}
use azure_ml_optimization_pl.Protocol.{Update, completes, finishes, change_of}
use azure_ml_optimization_pl.Exec.{modify}
use azure_ml_optimization_pl.Exec.Ensures.{
  Ensures, Keeps, Keeps-pure, Keeps-raise, Keeps-gets, Keeps-raise_if, Keeps-bind, Ensures-bind,
  Ensures-attempt, Ensures-weaken, keeps_rules, Keeps-state,
}
use azure_ml_optimization_pl.World.{
  World, Context, Settlement, ack, requeue, call, acknowledge, abandon,
}
use azure_ml_optimization_pl.World.Over.{
  IsOver, Acks, Acks-step, acknowledged, Stored, Found, next_turn-Acks, update-Stored, update-Acks,
  fetch-Found, call-Acks, call-IsOver,
}
use azure_ml_optimization_pl.Worker.Changes.{guarded, retries, status_after, complete, finish}
use azure_ml_optimization_pl.Worker.Process.{
  set_action, conclude, work, settlement, fail_with, handle, under_lease, claim_and_work, deliver,
  settle, process,
}
use azure_ml_optimization_pl.Tracking.Kept.{finish-Kept, close-Kept}
use azure_ml_optimization_pl.World.Kept.{IsKept, IsLogged}
use azure_ml_optimization_pl.Worker.Kept.{
  check_cancelled-Kept, put_artifacts-Kept, track-Kept, work-Kept, under_lease-Kept,
}

action_cases : (a : Option Settlement) → (a ≡ none) ⊎ (a ≡ some ack) ⊎ (a ≡ some requeue)
action_cases a = ground arith

module _ {F : Type 0} ⦃d : Double F⦄ (c : Context F) where
  abbrev I : World F → Type 0
  I = Acks c

  Acks-IsLogged : IsLogged c I
  Acks-IsLogged = record {
    calls = call-Acks c;
    tracker = λ active run_id w h. Acks-step c w _ refl refl (λ o. o) h;
  }

  Acks-IsKept : IsKept c I
  Acks-IsKept = record {
    logged = Acks-IsLogged;
    turns = next_turn-Acks c;
    updates = update-Acks c;
    fetches = Ensures-weaken _ _ _ (λ r w h. h.0) (fetch-Found c);
    thread = λ renewing lost w h. Acks-step c w _ refl refl (λ o. o) h;
  }

  -- The two writes after which a message is acknowledged end the job.
  completes-terminal :
      (result : EngineResult F) (uris : Dict String) (duration : F) (t : Times)
      (x r : ExperimentRecord F)
      → prepare (change_of (completes c.owner result uris duration)) t x ≡ ok r
      → terminal r.status ≡ true
  unfolding prepare change_of guarded complete
  completes-terminal result uris duration t x r h = ground arith

  finish-terminal :
      (status : ExperimentStatus) (code message : String) (t : Times) (x r : ExperimentRecord F)
      → terminal status ≡ true
      → prepare (guarded c.owner (finish status code message)) t x ≡ ok r
      → terminal r.status ≡ true
  unfolding prepare guarded finish
  finish-terminal failed code message t x r s h = ground arith
  finish-terminal _ code message t x r s h = ground arith

  status_after-terminal : (e : Error) → terminal (status_after false e) ≡ true
  status_after-terminal e = ground arith

  finishes-terminal :
      (e : Error) (t : Times) (x r : ExperimentRecord F)
      → prepare (change_of (finishes c.owner false e)) t x ≡ ok r
      → terminal r.status ≡ true
  unfolding change_of
  finishes-terminal e t x r h = finish-terminal _ _ _ t x r (status_after-terminal e) h

  -- `action = "ack"` behind a write that ended the job.
  ack-Acks :
      (u : Update F) (r : ExperimentRecord F)
      → ((t : Times) (x : ExperimentRecord F)
          → prepare (change_of u) t x ≡ ok r
          → terminal r.status ≡ true)
      → Ensures I (Stored c u r) (modify (set_action ack)) (λ _. I)
  unfolding modify
  ack-Acks u r ends = record {
    at = λ w h.
        let (x, t, made) = h.made in
        record { over = λ _. (r, h.saved, ends t x made); pending = h.acks.pending };
  }

  conclude-Acks : (result : EngineResult F) → Keeps I (conclude c result)
  unfolding conclude
  conclude-Acks result = Keeps-bind _ _ (check_cancelled-Kept c I Acks-IsKept) λ stop.
      Keeps-bind _ _ (Keeps-raise_if stop _) λ _.
        Keeps-bind _ _ (put_artifacts-Kept c I Acks-IsKept) λ uris.
          Keeps-bind _ _ (next_turn-Acks c) λ t.
            Ensures-bind _ _ _ (update-Stored c (completes c.owner result uris t.elapsed)) λ r.
              Ensures-bind _ _ (λ _. I)
                (ack-Acks _ r λ s x. completes-terminal result uris t.elapsed s x r)
                λ _.
                  Keeps-bind _ _
                    (track-Kept c I Acks-IsKept _ (finish-Kept c I Acks-IsLogged _ _ _))
                    λ _. Keeps-pure tt

  work-Acks :
      (engine : ExperimentConfig F → Run F) (r : ExperimentRecord F) → Keeps I (work c engine r)
  work-Acks engine r = work-Kept c I Acks-IsKept engine conclude-Acks r

  -- `action = "abandon" if retry else "ack"` behind the write of `finish`.
  settlement-Acks :
      (retry : Bool) (e : Error) (r : ExperimentRecord F)
      → Ensures I
          (Stored c (finishes c.owner retry e) r)
          (modify (set_action (settlement c retry)))
          (λ _. I)
  settlement-Acks true e r =
      unfold modify in record { at = λ w h. record { over = λ a. cc; pending = h.acks.pending } }
  settlement-Acks false e r = ack-Acks _ r λ t x. finishes-terminal e t x r

  fail_with-Acks : (attempts : ℕ) (e : Error) → Keeps I (fail_with c attempts e)
  unfolding fail_with
  fail_with-Acks attempts e =
      let retry = retries c.max_attempts attempts e in
      Keeps-bind _ _ (Keeps-gets _) λ lost. Keeps-bind _ _ (Keeps-raise_if lost _) λ _.
        Ensures-bind _ _ _ (update-Stored c (finishes c.owner retry e)) λ r.
          Ensures-bind _ _ (λ _. I) (settlement-Acks retry e r)
            λ _.
              Keeps-bind _ _ (track-Kept c I Acks-IsKept _ (finish-Kept c I Acks-IsLogged _ _ _))
                λ _. Keeps-pure tt

  handle-Acks : (attempts : ℕ) (e : Error) → Keeps I (handle c attempts e)
  unfolding handle
  handle-Acks attempts (lease_lost_error m) = Keeps-raise _
  handle-Acks attempts e = fail_with-Acks attempts _

  under_lease-Acks :
      (engine : ExperimentConfig F → Run F) (r : ExperimentRecord F)
      → Keeps I (under_lease c engine r)
  unfolding under_lease
  under_lease-Acks engine r =
      under_lease-Kept c I Acks-IsKept engine r (work-Acks engine r) (handle-Acks r.attempts)

  claim_and_work-Acks : (engine : ExperimentConfig F → Run F) → Keeps I (claim_and_work c engine)
  unfolding claim_and_work
  claim_and_work-Acks engine = search (keeps_rules, update-Acks c, under_lease-Acks)

  -- A job that was found to have ended is acknowledged at once.
  route-Acks :
      (engine : ExperimentConfig F → Run F) (r : ExperimentRecord F) (now : ℕ)
      → Ensures I
          (Found c (r, now))
          (if terminal r.status then modify (set_action ack) else claim_and_work c engine)
          (λ _. I)
  route-Acks engine r now = elim (Bool-cases (terminal r.status)) [
    | inl over ↦ rw over (
        unfold modify in
        record { at = λ w h. record { over = λ _. (r, h.1, over); pending = h.0.pending } })
    | inr open_job ↦ rw open_job (record { at = λ w h. (claim_and_work-Acks engine).at w h.0 })
  ]

  deliver-Acks : (engine : ExperimentConfig F → Run F) → Keeps I (deliver c engine)
  unfolding deliver
  deliver-Acks engine =
      Ensures-bind _ _ _ (fetch-Found c) λ found. route-Acks engine found.0 found.1

  settle_ends :
      (w : World F)
      → I w
      → acknowledged (settle c w).calls ≡ true
      → IsOver c.experiment_id (settle c w).store
  unfolding settle
  settle_ends w h k = elim (action_cases w.action) [
    | inl e ↦ cc (rw (e, settle) at k, h.pending)
    | inr (inl e) ↦ rw (e, settle) (call-IsOver c acknowledge w (h.over e))
    | inr (inr e) ↦
        let kept = Keeps-state (call c abandon) (call-Acks c abandon refl) w h in
        cc (rw (e, settle) at k, kept.pending)
  ]

  -- Whatever the engine does, and whatever other processes, the lease thread, signals and failing
  -- services do in the meantime: if `process`, from a state without an action and without an
  -- acknowledgement, acknowledges the message of a job, then the stored record of the job is in a
  -- terminal status.
  pub process-ack :
      (engine : ExperimentConfig F → Run F) (w : World F)
      → w.action ≡ none
      → acknowledged w.calls ≡ false
      → acknowledged (process c engine w).calls ≡ true
      → IsOver c.experiment_id (process c engine w).store
  unfolding process
  process-ack engine w fresh quiet k =
      settle_ends _
        (close-Kept c I Acks-IsLogged _ (
          Keeps-state _ (Ensures-attempt _ _ (deliver-Acks engine) (λ e. Keeps-pure tt)) w
            (record { over = λ a. cc; pending = quiet })))
        k
