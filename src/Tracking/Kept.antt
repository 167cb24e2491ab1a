-- ===== src/Tracking/Kept.antt =====
-- The invariant of `World.Kept` under the methods of the tracker.
use azure_ml_optimization_pl.Base.{
  ℕ, String, Dict, refl, Bool, Bool-cases, inl, inr, Option, none, some, List,
}
use azure_ml_optimization_pl.Double.{Double}
use azure_ml_optimization_pl.Domain.{ExperimentConfig, MetricPoint, Value}
use azure_ml_optimization_pl.Exec.{modify}
use azure_ml_optimization_pl.Exec.Ensures.{
  Keeps, Keeps-pure, Keeps-gets, Keeps-modify, Keeps-bind, keeps_rules, Keeps-if, Keeps-state,
}
use azure_ml_optimization_pl.World.{World, Context, log_count, log_metric, end_run, call}
use azure_ml_optimization_pl.World.Kept.{IsLogged}
use azure_ml_optimization_pl.Tracking.{
  start_at, start, send_metric, metric, send_count, send_last, end_with, finish, set_active,
  set_run_id, end_failed, close, start_from,
}

module _ {F : Type 0} ⦃d : Double F⦄ (c : Context F) (I : World F → Type 0)
    (logged : IsLogged c I) where
  open logged use {calls, tracker}

  set_active-Kept : (b : Bool) → Keeps I (modify (set_active b))
  set_active-Kept b = Keeps-modify _ λ w h. tracker _ _ w h

  set_run_id-Kept : (id : String) → Keeps I (modify (set_run_id id))
  set_run_id-Kept id = Keeps-modify _ λ w h. tracker _ _ w h

  start_at-Kept : (uri : String) (config : ExperimentConfig F) → Keeps I (start_at c uri config)
  unfolding start_at
  start_at-Kept uri config = search (keeps_rules, calls, set_run_id-Kept) depth 10

  start_from-Kept :
      (uri : Option String) (config : ExperimentConfig F) → Keeps I (start_from c uri config)
  unfolding start_from
  start_from-Kept none config = Keeps-pure none
  start_from-Kept (some uri) config = Keeps-if _ _ _ (Keeps-pure none) (start_at-Kept uri config)

  pub start-Kept : (config : ExperimentConfig F) → Keeps I (start c config)
  unfolding start
  start-Kept config = start_from-Kept c.tracking_uri config

  send_metric-Kept : (m : MetricPoint F) → Keeps I (send_metric c m)
  unfolding send_metric
  send_metric-Kept m = search (keeps_rules, calls)

  pub metric-Kept : (m : MetricPoint F) → Keeps I (metric c m)
  unfolding metric
  metric-Kept m =
      Keeps-bind _ _ (Keeps-gets _) λ b. Keeps-if b _ _ (send_metric-Kept m) (Keeps-pure none)

  send_count-Kept : (n : Option ℕ) → Keeps I (send_count c n)
  unfolding send_count
  send_count-Kept none = Keeps-pure none
  send_count-Kept (some n) = Keeps-bind _ _ (calls (log_count n) refl) λ _. Keeps-pure none

  send_last-Kept : (m : Option (MetricPoint F)) (n : ℕ) → Keeps I (send_last c m n)
  unfolding send_last
  send_last-Kept none n = Keeps-pure none
  send_last-Kept (some m) n =
      Keeps-bind _ _ (calls (log_metric "final_best_objective" m.best_objective) refl) λ _.
        Keeps-bind _ _ (calls (log_metric "final_cumulative_cost" m.cumulative_cost) refl)
          λ _. send_count-Kept _

  end_with-Kept :
      (status : String) (summary : Dict (Value F)) (metrics : List (MetricPoint F))
      → Keeps I (end_with c status summary metrics)
  unfolding end_with
  end_with-Kept status summary metrics =
      search (keeps_rules, calls, send_last-Kept, set_active-Kept) depth 10

  pub finish-Kept :
      (status : String) (summary : Dict (Value F)) (metrics : List (MetricPoint F))
      → Keeps I (finish c status summary metrics)
  unfolding finish
  finish-Kept status summary metrics =
      Keeps-bind _ _ (Keeps-gets _)
        λ b. Keeps-if b _ _ (end_with-Kept status summary metrics) (Keeps-pure none)

  end_failed-Kept : (w : World F) → I w → I (end_failed c w)
  unfolding end_failed
  end_failed-Kept w h =
      tracker _ _ (call c (end_run "FAILED") w).1
        (Keeps-state (call c (end_run "FAILED")) (calls _ refl) w h)

  pub close-Kept : (w : World F) → I w → I (close c w)
  unfolding close
  close-Kept w h = elim (Bool-cases w.active) [
    | inl live ↦ rw (live, close) (end_failed-Kept w h)
    | inr closed ↦ rw (closed, close) h
  ]
