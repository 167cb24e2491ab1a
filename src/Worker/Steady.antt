-- ===== src/Worker/Steady.antt =====
-- The number of the call and the `stop_event` under `process`.
use azure_ml_optimization_pl.Base.{ℕ, Bool, Option, none, some, ◌≡◌, refl, Dict, String, List}
use azure_ml_optimization_pl.Double.{Double}
use azure_ml_optimization_pl.Errors.{Error, lease_lost_error}
use azure_ml_optimization_pl.Domain.{ExperimentConfig, EngineResult, MetricPoint, Value}
use azure_ml_optimization_pl.Engine.{Run}
use azure_ml_optimization_pl.Exec.{modify}
use azure_ml_optimization_pl.Exec.Ensures.{
  Keeps, Keeps-pure, Keeps-raise, Keeps-gets, Keeps-modify, Keeps-raise_if, Keeps-bind, Keeps-if,
  Ensures-attempt, Keeps-state,
}
use azure_ml_optimization_pl.World.{
  World, Context, Settlement, ack, requeue, acknowledge, abandon, call,
}
use azure_ml_optimization_pl.World.Kept.{IsKept, IsLogged}
use azure_ml_optimization_pl.World.Steady.{
  Steady, IsMoved, next_turn-Steady, update-Steady, fetch-Steady, call-Steady,
}
use azure_ml_optimization_pl.Worker.Kept.{
  check_cancelled-Kept, put_artifacts-Kept, track-Kept, work-Kept, under_lease-Kept,
}
use azure_ml_optimization_pl.Worker.Process.{
  conclude, fail_with, handle, claim_and_work, deliver, settle, process, set_action, track,
}
use azure_ml_optimization_pl.Tracking
use azure_ml_optimization_pl.Tracking.Kept.{finish-Kept, close-Kept}

module _ {F : Type 0} ⦃d : Double F⦄ (c : Context F) (J : ℕ → Bool → Type 0)
    (moves : IsMoved c J) where
  abbrev I : World F → Type 0
  I = Steady c J

  Steady-IsLogged : IsLogged c I
  Steady-IsLogged = record {
    calls = λ x other. call-Steady c J moves x;
    tracker = λ active run_id w h. h;
  }

  Steady-IsKept : IsKept c I
  Steady-IsKept = record {
    logged = Steady-IsLogged;
    turns = next_turn-Steady c J moves;
    updates = update-Steady c J moves;
    fetches = fetch-Steady c J moves;
    thread = λ renewing lost w h. h;
  }

  set_action-Steady : (a : Settlement) → Keeps I (modify (set_action a))
  set_action-Steady a = Keeps-modify _ λ w h. h

  finish-Steady :
      (status : String) (summary : Dict (Value F)) (metrics : List (MetricPoint F))
      → Keeps I (track c (Tracking.finish c status summary metrics))
  finish-Steady status summary metrics =
      track-Kept c I Steady-IsKept _ (finish-Kept c I Steady-IsLogged _ _ _)

  conclude-Steady : (result : EngineResult F) → Keeps I (conclude c result)
  unfolding conclude
  conclude-Steady result = Keeps-bind _ _ (check_cancelled-Kept c I Steady-IsKept) λ stop.
      Keeps-bind _ _ (Keeps-raise_if stop _) λ _.
        Keeps-bind _ _ (put_artifacts-Kept c I Steady-IsKept) λ uris.
          Keeps-bind _ _ (next_turn-Steady c J moves) λ t.
            Keeps-bind _ _ (update-Steady c J moves _) λ r.
              Keeps-bind _ _ (set_action-Steady ack)
                λ _. Keeps-bind _ _ (finish-Steady _ _ _) λ _. Keeps-pure tt

  fail_with-Steady : (attempts : ℕ) (e : Error) → Keeps I (fail_with c attempts e)
  unfolding fail_with
  fail_with-Steady attempts e = Keeps-bind _ _ (Keeps-gets _) λ lost.
      Keeps-bind _ _ (Keeps-raise_if lost _) λ _. Keeps-bind _ _ (update-Steady c J moves _) λ r.
        Keeps-bind _ _ (set_action-Steady _)
          λ _. Keeps-bind _ _ (finish-Steady _ _ _) λ _. Keeps-pure tt

  handle-Steady : (attempts : ℕ) (e : Error) → Keeps I (handle c attempts e)
  unfolding handle
  handle-Steady attempts (lease_lost_error m) = Keeps-raise _
  handle-Steady attempts e = fail_with-Steady attempts _

  deliver-Steady : (engine : ExperimentConfig F → Run F) → Keeps I (deliver c engine)
  unfolding deliver claim_and_work
  deliver-Steady engine = Keeps-bind _ _ (fetch-Steady c J moves) λ found.
      Keeps-if _ _ _ (set_action-Steady ack) (
        Keeps-bind _ _ (update-Steady c J moves _) λ r.
          under_lease-Kept c I Steady-IsKept engine r
            (work-Kept c I Steady-IsKept engine conclude-Steady r) (handle-Steady r.attempts))

  settle-Steady : (a : Option Settlement) (w : World F) → w.action ≡ a → I w → I (settle c w)
  unfolding settle
  settle-Steady none w e h = rw (e, settle) h
  settle-Steady (some ack) w e h =
      rw (e, settle) (Keeps-state (call c acknowledge) (call-Steady c J moves _) w h)
  settle-Steady (some requeue) w e h =
      rw (e, settle) (Keeps-state (call c abandon) (call-Steady c J moves _) w h)

  pub process-Steady :
      (engine : ExperimentConfig F → Run F) (w : World F) → I w → I (process c engine w)
  unfolding process
  process-Steady engine w h = settle-Steady _ _ refl (
      close-Kept c I Steady-IsLogged _
        (Keeps-state _ (Ensures-attempt _ _ (deliver-Steady engine) (λ e. Keeps-pure tt)) w h))
