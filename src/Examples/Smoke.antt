-- ===== src/Examples/Smoke.antt =====
-- A run of the smoke test against an API whose experiment is completed at once.
use azure_ml_optimization_pl.Base.{
  ℕ, String, leb, ◌≡◌, refl, true, some, List, [], ◌∷◌, get_or, if◌then◌else◌, arith,
}
use azure_ml_optimization_pl.Base.Int.{ℤ, ◌-ℤ◌}
use azure_ml_optimization_pl.Double.{Double, fixed_point}
use azure_ml_optimization_pl.Errors.{ok}
use azure_ml_optimization_pl.Exec.{raise_if, pure, ◌>>=◌}
use azure_ml_optimization_pl.Exec.Ensures.{EndsIn}
use azure_ml_optimization_pl.Scripts.Json.{
  truthy, elements, to_list, item, find_field, is_string, Json, null, number, string, array, object,
  nil, cons, end, field,
}
use azure_ml_optimization_pl.Scripts.Smoke.{
  Arguments, Response, Step, Script, search_query, main, main_from, check_results, check_tracking,
  poll, fetch, fetch_item, ask, clock,
}
use azure_ml_optimization_pl.Scripts.Answers.{
  has_ended, any_finished, any_finished_in, costs_rise, has_candidate,
}
use azure_ml_optimization_pl.Scripts.Smoke.Stops.{Anything}
use azure_ml_optimization_pl.Scripts.Smoke.Passes.{Passed, IsOver, main-Passed}

abbrev one : (key : String) → Json ℤ → Json ℤ
one key v = object (field key v end)

abbrev seconds : ℕ → ℤ
seconds n = Double.literal fixed_point n 0

abbrev finished_run : Json ℤ
finished_run = one "info" (one "status" (string "FINISHED"))

-- The answers, by the number of the call; where the clock is read, none is looked at.
abbrev responses : List (Response ℤ)
responses =
    record { status_code = 0; body = null }
    ∷ record { status_code = 200; body = null }
    ∷ record { status_code = 202; body = one "experiment_id" (string "e1") }
    ∷ record { status_code = 0; body = null }
    ∷ record { status_code = 200; body = one "status" (string "completed") }
    ∷ record {
      status_code = 200;
      body = one "metrics" (array (cons (one "cumulative_cost" (number (seconds 1))) nil));
    }
    ∷ record {
      status_code = 200;
      body = one "recommendation" (one "candidate" (array (cons null nil)));
    }
    ∷ record { status_code = 422; body = null }
    ∷ record { status_code = 200; body = one "experiment" (one "experiment_id" (string "7")) }
    ∷ record { status_code = 0; body = null }
    ∷ record { status_code = 200; body = one "runs" (array (cons finished_run nil)) }
    ∷ []

abbrev outside : ℕ → Step ℤ
outside k = record {
  monotonic = if leb 20 k then seconds 1000 else seconds 0;
  response = ok (get_or responses k (record { status_code = 500; body = null }));
}

outside-IsOver : IsOver outside (seconds 300) 20 (seconds 0)
unfolding ◌-ℤ◌
outside-IsOver k late = let passed : leb 20 k ≡ true = ground (arith, late) in rw passed refl

abbrev start : Script ℤ
start = record { step = 0; exchanges = [] }

abbrev arguments : Arguments
arguments = record { strategy = "random"; benchmark = "hartmann6"; iterations = 5 }

main-Passed_example :
    let (r, s) = main outside (seconds 300) 21 arguments start in EndsIn Anything Passed r s
main-Passed_example = main-Passed outside (seconds 300) arguments 20 start outside-IsOver

-- It passes.
run_passes :
    (main outside (seconds 300) 21 arguments start).0
    ≡ ok (
        some
          (record { status = string "completed"; metric_points = 1; elapsed_seconds = seconds 0 }))
unfolding main main_from check_results check_tracking poll fetch fetch_item search_query ask clock
    has_ended any_finished any_finished_in costs_rise has_candidate truthy elements to_list item
    find_field is_string raise_if ◌>>=◌ pure ◌-ℤ◌
run_passes = refl
