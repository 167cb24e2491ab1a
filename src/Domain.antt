-- ===== src/Domain.antt =====
-- domain.py: the records that the platform stores and sends. A float is an element of `F`, a
-- `datetime` the number of microseconds since an origin. What the validators check is in `Config`.
pub mod Config
pub mod Accepts
use azure_ml_optimization_pl.Base.{ℕ, String, Bool, true, false, Dict, Option, none, some, List, []}

pub data ExperimentStatus : Type 0 where
  queued running cancelling cancelled completed failed : ExperimentStatus

abbrev pub terminal : ExperimentStatus → Bool
terminal cancelled = true
terminal completed = true
terminal failed = true
terminal _ = false

pub record ExperimentConfig (F : Type 0) : Type 0 where
  pub benchmark : String
  pub budget : F
  pub strategy : String
  pub fidelities : List F
  pub seed : ℕ
  pub max_iterations : ℕ
  pub tags : Dict String

pub record FailureInfo : Type 0 where
  pub code : String
  pub message : String
  pub retryable : Bool
  pub attempts : ℕ

pub record Recommendation (F : Type 0) : Type 0 where
  pub candidate : List F
  pub objective : F
  pub fidelity : F
  pub observed_at : ℕ

pub record MetricPoint (F : Type 0) : Type 0 where
  pub iteration : ℕ
  pub objective : Option F
  pub best_objective : F
  pub cumulative_cost : F
  pub regret : Option F
  pub fidelity : F
  pub strategy : String
  pub candidate : Option (List F)
  pub completed_evaluations : Option ℕ
  pub recorded_at : ℕ

-- The values of `result_metadata` and of an engine's `metadata`, of type `Any` in the source.
pub data Value (F : Type 0) : Type 0 where
  text : String → Value F
  flag : Bool → Value F
  number : F → Value F
  links : Dict String → Value F

pub record ExperimentRecord (F : Type 0) : Type 0 where
  pub experiment_id : String
  pub job_id : String
  pub status : ExperimentStatus
  pub configuration : ExperimentConfig F
  pub progress : F
  pub completed_evaluations : Option ℕ
  pub current_best_objective : Option F
  pub accumulated_cost : F
  pub recommendation : Option (Recommendation F)
  pub created_at : ℕ
  pub queued_at : ℕ
  pub started_at : Option ℕ
  pub updated_at : ℕ
  pub completed_at : Option ℕ
  pub cancel_requested : Bool
  pub failure : Option FailureInfo
  pub result_metadata : Dict (Value F)
  pub mlflow_run_id : Option String
  pub version : ℕ
  pub dispatched_at : Option ℕ
  pub lease_owner : Option String
  pub lease_expires_at : Option ℕ
  pub attempts : ℕ
  pub metric_history : List (MetricPoint F)

pub record EngineResult (F : Type 0) : Type 0 where
  pub metrics : List (MetricPoint F)
  pub recommendation : Recommendation F
  pub metadata : Dict (Value F)

pub record JobMessage : Type 0 where
  pub job_id : String
  pub experiment_id : String
  pub enqueued_at : ℕ

-- The constructor call with the fields that the service gives and the defaults of the others:
-- `zero` is the float 0, and the numbers are the readings of the three `default_factory=utc_now`.
unfoldable pub new_record :
    {F : Type 0}
    → (zero : F) (created_at queued_at updated_at : ℕ) (experiment_id job_id : String)
    → ExperimentConfig F
    → Dict (Value F)
    → ExperimentRecord F
new_record zero created_at queued_at updated_at experiment_id job_id config metadata = record {
  experiment_id = experiment_id;
  job_id = job_id;
  status = queued;
  configuration = config;
  progress = zero;
  completed_evaluations = some 0;
  current_best_objective = none;
  accumulated_cost = zero;
  recommendation = none;
  created_at = created_at;
  queued_at = queued_at;
  started_at = none;
  updated_at = updated_at;
  completed_at = none;
  cancel_requested = false;
  failure = none;
  result_metadata = metadata;
  mlflow_run_id = none;
  version = 1;
  dispatched_at = none;
  lease_owner = none;
  lease_expires_at = none;
  attempts = 0;
  metric_history = [];
}
