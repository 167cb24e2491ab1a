-- ===== src/Worker/Loop.antt =====
-- `run_once` and `run_forever` of worker.py, with the signal handlers: a signal is the `shutdown`
-- of a turn of the environment, which sets the worker's `stop_event`. What the queue delivers, and
-- the worker's uuid4 for the delivery, are parameters, by the number of the call.
pub mod Stops
use azure_ml_optimization_pl.Base.{
  ℕ, zero, suc, String, Bool, true, false, Option, none, some, if◌then◌else◌,
}
use azure_ml_optimization_pl.Double.{Double}
use azure_ml_optimization_pl.Errors.{Result, ok, err}
use azure_ml_optimization_pl.Domain.{ExperimentConfig}
use azure_ml_optimization_pl.Engine.{Run}
use azure_ml_optimization_pl.Exec.{Exec, pure, gets, modify, ◌>>=◌, ◌>>◌}
use azure_ml_optimization_pl.World.{World, Context, receive, next_turn, call}
use azure_ml_optimization_pl.Worker.Process.{process}
use azure_ml_optimization_pl.Service.{reconcile_pending}

-- A delivered message with the worker's name for itself: the experiment, and the owner.
pub record Delivery : Type 0 where
  pub experiment_id : String
  pub owner : String

abbrev pub for_delivery : {F : Type 0} → Delivery → Context F → Context F
for_delivery job c = record c { experiment_id = job.experiment_id; owner = job.owner }

-- The variables of a call of `process`, with its tracker and its `LeaseRenewer`.
abbrev pub new_delivery : {F : Type 0} → World F → World F
new_delivery w = record w {
  action = none;
  active = false;
  run_id = none;
  renewing = false;
  lost = false;
}

-- `request_shutdown`, which the signal handlers call.
abbrev pub request_shutdown : {F : Type 0} → World F → World F
request_shutdown w = record w { stopping = true }

module _ {F : Type 0} ⦃d : Double F⦄ (c : Context F) where
  -- A step of the environment with a wait of the worker.
  abbrev pub wait : World F → World F
  wait w = (next_turn c w).1

  -- The test of 30 seconds and the call behind it: the new value of `reconciled`.
  unfoldable pub reconcile_when : F → Exec (World F) F
  reconcile_when reconciled = do
    t ← next_turn c
    if d.lt (d.literal 30 0) (d.sub t.elapsed reconciled)
        then (reconcile_pending c >>= λ n. next_turn c >>= λ now. pure now.elapsed)
        else pure reconciled

  module _ (engine : ExperimentConfig F → Run F) (delivered : ℕ → Option Delivery) where
    unfoldable pub process_delivery : Option Delivery → Exec (World F) Bool
    process_delivery none = pure false
    process_delivery (some job) = do
      modify new_delivery
      modify (process (for_delivery job c) engine)
      pure true

    unfoldable pub run_once : Exec (World F) Bool
    run_once = do n ← gets (λ w. w.round); call c receive; process_delivery (delivered n)

    -- `continue` behind a job; a wait behind an empty queue or an exception, which is logged.
    abbrev pub after_poll : Result Bool × World F → World F
    after_poll (ok true, w) = w
    after_poll (ok false, w) = wait w
    after_poll (err e, w) = wait w

    -- The body of the loop behind the reconciliation, with the old value of `reconciled`.
    abbrev pub poll_with : F → Result F × World F → F × World F
    poll_with old (ok reconciled, w) = (reconciled, after_poll (run_once w))
    poll_with old (err e, w) = (old, wait w)

    unfoldable pub poll : F → World F → F × World F
    poll reconciled w = poll_with reconciled (reconcile_when reconciled w)

    -- The loop with `fuel` passes at most, and whether it has ended.
    unfoldable pub loop : (fuel : ℕ) → F → World F → World F × Bool
    loop zero reconciled w = (w, false)
    loop (suc fuel) reconciled w =
        let v = wait w in
        elim v.stopping [
          | true ↦ (v, true)
          | false ↦ let (again, u) = poll reconciled v in loop fuel again u
        ]

    unfoldable pub run_forever : (fuel : ℕ) → World F → World F × Bool
    run_forever fuel w = loop fuel (d.literal 0 0) w
