-- ===== src/Examples/Completions.antt =====
-- A worker that completes a job of the demo engine.
use azure_ml_optimization_pl.Base.{ℕ, ◌<◌, ◌≡◌, refl, true, false, some, [], ◌∷◌, lookup, arith}
use azure_ml_optimization_pl.Base.Int.{ℤ, pos, ◌+ℤ◌}
use azure_ml_optimization_pl.Double.{fixed_point}
use azure_ml_optimization_pl.Domain.{ExperimentRecord, new_record}
use azure_ml_optimization_pl.Engine.{iterations, execute}
use azure_ml_optimization_pl.Engine.Finishing.{Finishes, HasPoint, execute-Finishes}
use azure_ml_optimization_pl.World.{Turn, Context}
use azure_ml_optimization_pl.World.Calm.{IsCalm, Has}
use azure_ml_optimization_pl.World.Over.{acknowledged}
use azure_ml_optimization_pl.Worker.Process.{process}
use azure_ml_optimization_pl.Worker.Completion.{IsInTime, IsFresh, IsCompleted}
use azure_ml_optimization_pl.Worker.Completion.Live.{Anything}
use azure_ml_optimization_pl.Worker.Completion.Runs.{process-completes}
use azure_ml_optimization_pl.Examples.Data.{
  config, queued_record, context, quiet_outside, at_second,
}
use azure_ml_optimization_pl.Examples.Runs.{halves, engine, fresh}

-- All clock readings are within second 5.
abbrev second_five : ℕ → Turn ℤ
second_five n = record (quiet_outside n) { times = at_second 5 }

abbrev brief : Context ℤ
brief = record context { outside = second_five }

brief-IsCalm : IsCalm brief
brief-IsCalm = record {
  quiet = record { alone = λ n. refl; no_beat = λ n. refl; no_failure = λ n. refl };
  no_signal = λ n. refl;
}

brief-IsInTime : IsInTime brief
brief-IsInTime = record { claimed = λ m n. omega arith; renewed = λ m n. omega arith }

fresh-Has : Has brief (IsFresh brief config) (Anything brief brief-IsCalm brief-IsInTime) fresh
unfolding lookup new_record
fresh-Has = record {
  stored = queued_record;
  found = refl;
  good = record {
    configured = refl;
    unleased = refl;
    queued_up = refl;
    wanted = refl;
    allowed = omega arith;
  };
  acting = tt;
  unlost = refl;
  unstopped = refl;
}

some_iteration : 0 < iterations halves config
unfolding iterations
some_iteration = omega arith

execute-Finishes_example : Finishes HasPoint (execute halves config false)
unfolding ◌+ℤ◌
execute-Finishes_example =
    execute-Finishes halves config (pos 5000) (pos 10000 ∷ []) refl refl some_iteration refl

process-completes_example :
    (acknowledged (process brief engine fresh).calls ≡ true)
    × ((x : ExperimentRecord ℤ) × (lookup "e1" (process brief engine fresh).store ≡ some x)
        × IsCompleted brief HasPoint x)
process-completes_example =
    process-completes brief brief-IsCalm brief-IsInTime HasPoint config engine fresh
      execute-Finishes_example fresh-Has
