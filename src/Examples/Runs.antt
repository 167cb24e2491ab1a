-- ===== src/Examples/Runs.antt =====
-- Runs of the engine, the worker and the service at concrete inputs.
use azure_ml_optimization_pl.Base.{
  ℕ, String, ◌≡◌, refl, Bool, true, false, none, some, List, [], ◌∷◌, arith, lookup,
}
use azure_ml_optimization_pl.Base.Int.{ℤ, pos}
use azure_ml_optimization_pl.Double.{fixed_point, fixed_point-IsOrdered}
use azure_ml_optimization_pl.Errors.{err, ok, conflict_error}
use azure_ml_optimization_pl.Domain.{ExperimentConfig, ExperimentRecord, completed, new_record}
use azure_ml_optimization_pl.Engine.{Run, execute}
use azure_ml_optimization_pl.Engine.Behaviour.{
  Behaves, InBudget, Complete, AnyError, execute-Behaves,
}
use azure_ml_optimization_pl.World.{World}
use azure_ml_optimization_pl.World.Over.{IsOver, acknowledged}
use azure_ml_optimization_pl.Worker.Process.{process}
use azure_ml_optimization_pl.Worker.Safety.{process-ack}
use azure_ml_optimization_pl.Service.{create}
use azure_ml_optimization_pl.Service.Idempotency.{create_conflict, create_again}
use azure_ml_optimization_pl.Worker
use azure_ml_optimization_pl.Tracking
use azure_ml_optimization_pl.Exec
use azure_ml_optimization_pl.World
use azure_ml_optimization_pl.Repository
use azure_ml_optimization_pl.Base
use azure_ml_optimization_pl.Protocol
use azure_ml_optimization_pl.Domain
use azure_ml_optimization_pl.Service
use azure_ml_optimization_pl.Engine
use azure_ml_optimization_pl.Examples.Data.{
  config, queued_record, context, world_with, quiet_outside-IsQuiet,
}
use azure_ml_optimization_pl.Engine.Best.{
  IsRunningBest, IsRecommended, AnyRaise, execute-IsRecommended,
}

-- Every number drawn is 0.5.
abbrev pub halves : ℕ → ℕ → ℤ
halves seed index = pos 5000

execute-Behaves_example :
    Behaves
      (InBudget halves config)
      (Complete halves config)
      (AnyError halves config)
      (execute halves config false)
      []
execute-Behaves_example = execute-Behaves halves config false

execute-IsRecommended_example :
    Behaves IsRunningBest IsRecommended AnyRaise (execute halves config false) []
execute-IsRecommended_example = execute-IsRecommended fixed_point-IsOrdered halves config false

abbrev pub engine : ExperimentConfig ℤ → Run ℤ
engine settings = execute halves settings false

abbrev pub fresh : World ℤ
fresh = world_with (("e1", queued_record) ∷ [])

fresh-acknowledged : acknowledged (process context engine fresh).calls ≡ true
unfolding process Worker.Process.settle Tracking.close Exec.attempt Worker.Process.deliver
    Exec.◌>>=◌ World.fetch World.next_turn Repository.get Base.lookup World.interfere
    World.heartbeat Protocol.run Domain.new_record Worker.Process.claim_and_work World.update
    World.mutate_under Repository.mutate Base.insert Exec.finally Exec.gets Exec.modify Exec.pure
    Exec.raise Exec.raise_if Exec.when Protocol.change_of Protocol.perform Repository.Points.upsert
    Repository.create Repository.prepare Service.Changes.cancel Tracking.finish Tracking.metric
    Tracking.metric_values Tracking.start Worker.Changes.claim Worker.Changes.complete
    Worker.Changes.finish Worker.Changes.guarded Worker.Changes.mark_tracking_failed
    Worker.Changes.record_point Worker.Changes.renew_lease Worker.Changes.set_run
    Worker.Process.check_cancelled Worker.Process.conclude Worker.Process.fail_with
    Worker.Process.handle Worker.Process.interpret Worker.Process.put_artifacts
    Worker.Process.record_metric Worker.Process.store_run Worker.Process.summary_of
    Worker.Process.track Worker.Process.under_lease Worker.Process.work World.call Engine.execute
    Engine.loop Engine.proceed Engine.iterations Engine.evaluate Engine.point Engine.conclude
    Engine.hartmann6 Engine.sample Engine.objective_at Engine.hartmann_rows Base.update
    Base.Int.◌+ℤ◌ Base.Int.◌-ℤ◌ Base.Int.◌*ℤ◌
fresh-acknowledged = refl

process-ack_example : IsOver "e1" (process context engine fresh).store
process-ack_example = process-ack context engine fresh refl refl fresh-acknowledged

abbrev same_name : String → String
same_name key = key

abbrev first_request : ExperimentConfig ℤ → String
first_request settings = "f1"

abbrev second_request : ExperimentConfig ℤ → String
second_request settings = "f2"

abbrev dispatched : ExperimentRecord ℤ
dispatched = record queued_record { dispatched_at = some 5 }

abbrev used : World ℤ
used = world_with (("e1", dispatched) ∷ [])

create_conflict_example :
    let (r, w) = create context second_request same_name config (some "e1") used in
    (r ≡ err (conflict_error "idempotency key was already used with a different request"))
    × (w.store ≡ used.store)
    × (w.calls ≡ used.calls)
create_conflict_example =
    create_conflict context quiet_outside-IsQuiet second_request same_name config "e1" dispatched
      used refl (unfold lookup in refl) (unfold lookup new_record in refl)

create_again_example :
    let (r, w) = create context first_request same_name config (some "e1") used in
    (r ≡ ok dispatched) × (w.store ≡ used.store) × (w.calls ≡ used.calls)
create_again_example =
    create_again context quiet_outside-IsQuiet first_request same_name config "e1" dispatched used
      refl (unfold lookup in refl) (unfold lookup new_record in refl) refl
