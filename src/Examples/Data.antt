-- ===== src/Examples/Data.antt =====
-- Values that the examples share.
use azure_ml_optimization_pl.Base.{ℕ, ◌+◌, none, [], ◌∷◌, false, ◌*◌, refl}
use azure_ml_optimization_pl.Base.Int.{ℤ, pos}
use azure_ml_optimization_pl.Domain.{
  ExperimentConfig, ExperimentRecord, MetricPoint, new_record, text,
}
use azure_ml_optimization_pl.Repository.{Times, Store}
use azure_ml_optimization_pl.World.{Turn, World, Context, returns}
use azure_ml_optimization_pl.World.Quiet.{IsQuiet}

-- The time `t`, in seconds, for all three clock readings.
abbrev pub at_second : ℕ → Times
at_second t = record {
  guarded_at = t * 1000000;
  changed_at = t * 1000000 + 1;
  saved_at = t * 1000000 + 2;
}

-- A budget of 10 and two iterations, at the fidelities 0.5 and 1.
abbrev pub config : ExperimentConfig ℤ
config = record {
  benchmark = "hartmann6";
  budget = pos 100000;
  strategy = "random";
  fidelities = pos 5000 ∷ pos 10000 ∷ [];
  seed = 7;
  max_iterations = 2;
  tags = ("team", "ml") ∷ [];
}

abbrev pub queued_record : ExperimentRecord ℤ
queued_record = new_record (pos 0) 0 1 2 "e1" "j1" config (("request_fingerprint", text "f1") ∷ [])

abbrev pub metric_point : ℕ → ℤ → MetricPoint ℤ
metric_point i cost = record {
  iteration = i;
  objective = none;
  best_objective = pos 30000;
  cumulative_cost = cost;
  regret = none;
  fidelity = pos 10000;
  strategy = "random";
  candidate = none;
  completed_evaluations = none;
  recorded_at = 9;
}

-- Nothing happens between two calls, which are a second apart.
abbrev pub quiet_outside : ℕ → Turn ℤ
quiet_outside n = record {
  acts = [];
  beat = none;
  shutdown = false;
  times = at_second n;
  answer = returns;
  reply = "reply";
  elapsed = pos 10000;
}

abbrev pub context : Context ℤ
context = record {
  experiment_id = "e1";
  owner = "w1";
  timeout = 60;
  max_attempts = 3;
  tracking_uri = none;
  experiment_name = "mfbo";
  outside = quiet_outside;
}

abbrev pub world_with : Store ℤ → World ℤ
world_with s = record {
  store = s;
  round = 0;
  renewing = false;
  lost = false;
  stopping = false;
  action = none;
  active = false;
  run_id = none;
  calls = [];
}

pub quiet_outside-IsQuiet : IsQuiet quiet_outside
quiet_outside-IsQuiet = record { alone = λ n. refl; no_beat = λ n. refl; no_failure = λ n. refl }
