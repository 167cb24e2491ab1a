-- ===== src/Worker/Kept.antt =====
-- The invariant of `World.Kept` under the callbacks of `process`.
use azure_ml_optimization_pl.Base.{String, refl, Option, none, some}
use azure_ml_optimization_pl.Double.{Double}
use azure_ml_optimization_pl.Errors.{Error}
use azure_ml_optimization_pl.Domain.{ExperimentConfig, ExperimentRecord, MetricPoint, EngineResult}
use azure_ml_optimization_pl.Engine.{
  Run, finished, raised, reports, asks_cancelled, asks_stop, reads_clock,
}
use azure_ml_optimization_pl.Exec.{Exec}
use azure_ml_optimization_pl.Exec.Ensures.{
  Keeps, Keeps-pure, Keeps-raise, Keeps-gets, Keeps-modify, Keeps-raise_if, Keeps-bind,
  Ensures-attempt, Ensures-finally, keeps_rules,
}
use azure_ml_optimization_pl.World.{World, Context}
use azure_ml_optimization_pl.Worker.Process.{
  start_thread, track, record_metric, check_cancelled, interpret, store_run, put_artifacts,
  conclude, work, handle, under_lease,
}
use azure_ml_optimization_pl.Tracking.Kept.{metric-Kept, start-Kept}
use azure_ml_optimization_pl.World.Kept.{IsKept}

module _ {F : Type 0} ⦃d : Double F⦄ (c : Context F) (I : World F → Type 0)
    (kept : IsKept c I) where
  open kept use {logged, turns, updates, fetches, thread}
  open logged use {calls}

  pub track-Kept : (m : Exec (World F) (Option String)) → Keeps I m → Keeps I (track c m)
  unfolding track
  track-Kept m k = search (keeps_rules, updates)

  pub record_metric-Kept : (m : MetricPoint F) → Keeps I (record_metric c m)
  unfolding record_metric
  record_metric-Kept m = search (keeps_rules, updates, track-Kept, metric-Kept c I logged)

  pub check_cancelled-Kept : Keeps I (check_cancelled c)
  unfolding check_cancelled
  check_cancelled-Kept = Keeps-bind _ _ (Keeps-gets _) λ lost.
      Keeps-bind _ _ (Keeps-raise_if lost _)
        λ _. Keeps-bind _ _ fetches λ found. Keeps-bind _ _ (Keeps-raise_if _ _) λ _. Keeps-pure _

  pub interpret-Kept : (engine : Run F) → Keeps I (interpret c engine)
  unfolding interpret
  interpret-Kept (finished result) = Keeps-pure result
  interpret-Kept (raised e) = Keeps-raise e
  interpret-Kept (reports m rest) = Keeps-bind _ _ (record_metric-Kept m) λ _. interpret-Kept rest
  interpret-Kept (asks_cancelled rest) =
      Keeps-bind _ _ check_cancelled-Kept λ b. interpret-Kept (rest b)
  interpret-Kept (asks_stop rest) =
      Keeps-bind _ _ (turns) λ _. Keeps-bind _ _ (Keeps-gets _) λ b. interpret-Kept (rest b)
  interpret-Kept (reads_clock rest) =
      Keeps-bind _ _ (turns) λ t. interpret-Kept (rest t.times.changed_at)

  pub store_run-Kept : (run_id : Option String) → Keeps I (store_run c run_id)
  unfolding store_run
  store_run-Kept none = Keeps-pure tt
  store_run-Kept (some run_id) = search (keeps_rules, updates)

  pub put_artifacts-Kept : Keeps I (put_artifacts c)
  unfolding put_artifacts
  put_artifacts-Kept = search (keeps_rules, calls)

  -- The code under the lease, from what `conclude` and the handlers keep.
  pub work-Kept :
      (engine : ExperimentConfig F → Run F)
      → ((result : EngineResult F) → Keeps I (conclude c result))
      → (r : ExperimentRecord F) → Keeps I (work c engine r)
  unfolding work
  work-Kept engine conclude-Kept r =
      search
        (
          keeps_rules,
          track-Kept,
          start-Kept c I logged,
          store_run-Kept,
          interpret-Kept,
          conclude-Kept,
        )
        depth 8

  pub under_lease-Kept :
      (engine : ExperimentConfig F → Run F) (r : ExperimentRecord F)
      → Keeps I (work c engine r)
      → ((e : Error) → Keeps I (handle c r.attempts e))
      → Keeps I (under_lease c engine r)
  unfolding under_lease
  under_lease-Kept engine r work_kept handle_kept = Keeps-bind _ _ (calls _ refl) λ _.
      Keeps-bind _ _ (updates _) λ _.
        Keeps-bind _ _ (Keeps-modify start_thread λ w h. thread _ _ w h) λ _.
          Ensures-finally _ _ (Ensures-attempt _ _ work_kept handle_kept) (λ w h. thread _ _ w h)
            (λ _ w h. thread _ _ w h)
