-- ===== src/Examples/Loops.antt =====
-- The worker's loop in a concrete environment.
use azure_ml_optimization_pl.Base.{
  ℕ, ◌≡◌, refl, true, Option, none, some, [], ◌∷◌, ◌==◌, if◌then◌else◌, arith,
}
use azure_ml_optimization_pl.Base.Int.{ℤ}
use azure_ml_optimization_pl.Double.{fixed_point}
use azure_ml_optimization_pl.World.{Turn, Context}
use azure_ml_optimization_pl.Worker.Loop.{Delivery, run_forever}
use azure_ml_optimization_pl.Worker.Loop.Stops.{run_forever-stops}
use azure_ml_optimization_pl.Examples.Data.{queued_record, context, world_with, quiet_outside}
use azure_ml_optimization_pl.Examples.Runs.{engine}

-- A signal comes at call 40.
abbrev signalled : ℕ → Turn ℤ
signalled n = record (quiet_outside n) { shutdown = n == 40 }

-- The first call of `receive` gets the message of a job.
abbrev one_job : ℕ → Option Delivery
one_job n = if n == 2 then some (record { experiment_id = "e1"; owner = "w1" }) else none

abbrev served : Context ℤ
served = record context { outside = signalled }

run_forever-stops_example :
    (run_forever served engine one_job 41 (world_with (("e1", queued_record) ∷ []))).1 ≡ true
run_forever-stops_example =
    run_forever-stops served 40 refl engine one_job (world_with (("e1", queued_record) ∷ []))
      (omega arith)
