-- ===== src/Config.antt =====
-- config.py: `Settings`, whose values come from the environment of the process. A secret is a text.
use azure_ml_optimization_pl.Base.{ℕ, String, str_eq, Bool, true, false, not, Option, none, some}

pub data Environment : Type 0 where
  local test production : Environment

pub data StorageBackend : Type 0 where
  filesystem azure_blob : StorageBackend

pub data QueueBackend : Type 0 where
  memory azure_queue : QueueBackend

pub record Settings : Type 0 where
  pub environment : Environment
  pub log_level : String
  pub api_host : String
  pub api_port : ℕ
  pub require_api_key : Bool
  pub api_key : Option String
  pub repository_backend : StorageBackend
  pub state_path : String
  pub artifact_backend : StorageBackend
  pub artifact_path : String
  pub queue_backend : QueueBackend
  pub azure_storage_account_url : Option String
  pub azure_storage_connection_string : Option String
  pub azure_state_container : String
  pub azure_artifact_container : String
  pub azure_queue_name : String
  pub queue_visibility_timeout_seconds : ℕ
  pub allow_demo_engine : Bool
  pub worker_poll_seconds : ℕ
  pub worker_max_attempts : ℕ
  pub worker_id : String
  pub worker_metrics_port : ℕ
  pub mlflow_tracking_uri : Option String
  pub mlflow_experiment_name : String
  pub applicationinsights_connection_string : Option String

-- The values of an environment that sets nothing.
abbrev pub defaults : Settings
defaults = record {
  environment = local;
  log_level = "INFO";
  api_host = "0.0.0.0";
  api_port = 8000;
  require_api_key = false;
  api_key = none;
  repository_backend = filesystem;
  state_path = "data/state";
  artifact_backend = filesystem;
  artifact_path = "artifacts";
  queue_backend = memory;
  azure_storage_account_url = none;
  azure_storage_connection_string = none;
  azure_state_container = "experiment-state";
  azure_artifact_container = "experiment-artifacts";
  azure_queue_name = "mfbo-jobs";
  queue_visibility_timeout_seconds = 120;
  allow_demo_engine = true;
  worker_poll_seconds = 5;
  worker_max_attempts = 3;
  worker_id = "worker-local";
  worker_metrics_port = 9000;
  mlflow_tracking_uri = none;
  mlflow_experiment_name = "mfbo-platform";
  applicationinsights_connection_string = none;
}

-- The truth value of an optional text: it is there and not empty.
abbrev pub present : Option String → Bool
present none = false
present (some s) = not (str_eq s "")
