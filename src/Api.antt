-- ===== src/Api.antt =====
-- api.py: the handlers of the HTTP API. FastAPI routes, parses and validates; a request arrives
-- here with a configuration that passed validation and the two headers.
pub mod Key
pub mod Answers
use azure_ml_optimization_pl.Base.{
  ℕ, String, str_eq, Bool, true, false, not, ◌&&◌, ◌||◌, Option, none, some, List, [], ◌∷◌, ◌++◌,
  Dict, if◌then◌else◌,
}
use azure_ml_optimization_pl.Double.{Double}
use azure_ml_optimization_pl.Errors.{Error, Result, ok, err, not_found_error, conflict_error, other}
use azure_ml_optimization_pl.Domain.{
  ExperimentStatus, ExperimentConfig, ExperimentRecord, FailureInfo, MetricPoint, Recommendation,
}
use azure_ml_optimization_pl.Exec.{Exec, pure, ◌>>=◌}
use azure_ml_optimization_pl.World.{World, Context, for_record, fetch}
use azure_ml_optimization_pl.Service
use azure_ml_optimization_pl.Config.{Settings, present}
use Key.{is_key, is_ascii}

pub record CreateExperimentResponse : Type 0 where
  pub experiment_id : String
  pub status : ExperimentStatus
  pub created_at : ℕ

pub record ExperimentResponse (F : Type 0) : Type 0 where
  pub experiment_id : String
  pub status : ExperimentStatus
  pub configuration : ExperimentConfig F
  pub progress : F
  pub completed_evaluations : Option ℕ
  pub attempts : ℕ
  pub current_best_objective : Option F
  pub accumulated_cost : F
  pub created_at : ℕ
  pub queued_at : ℕ
  pub started_at : Option ℕ
  pub updated_at : ℕ
  pub completed_at : Option ℕ
  pub cancel_requested : Bool
  pub failure : Option FailureInfo

pub data Body (F : Type 0) : Type 0 where
  detail : String → Body F
  coded : (message code : String) → Body F
  created : CreateExperimentResponse → Body F
  experiment : ExperimentResponse F → Body F
  history : (experiment_id : String) → List (MetricPoint F) → Body F
  dependencies : Dict String → Body F
  ready_with : (dependencies : Dict String) → Body F
  recommended : (experiment_id : String) → ExperimentStatus → Option (Recommendation F) → Body F

-- A response with its status code, or an exception that no handler of the app takes.
pub data Response (F : Type 0) : Type 0 where
  responds : (status_code : ℕ) → Body F → Response F
  unhandled : Error → Response F

pub data Request (F : Type 0) : Type 0 where
  create_experiment : ExperimentConfig F → (idempotency_key : Option String) → Request F
  get_experiment get_metrics get_recommendation cancel_experiment :
      (experiment_id : String) → Request F

-- `x or ""` of an optional text.
abbrev pub or_empty : Option String → String
or_empty none = ""
or_empty (some s) = s

pub data Access : Type 0 where
  granted refused : Access
  -- `secrets.compare_digest` raises a `TypeError` on texts that are not ASCII.
  crashed : Access

-- The test of two keys that are there.
abbrev compare_keys : (configured given : String) → Access
compare_keys configured given =
    if not (is_ascii configured && is_ascii given)
    then crashed
    else if str_eq configured given
    then granted
    else refused

abbrev pub check_header : (api_key x_api_key : Option String) → Access
check_header api_key x_api_key =
    let configured = or_empty api_key in
    let given = or_empty x_api_key in
    if str_eq configured "" || str_eq given "" then refused else compare_keys configured given

unfoldable pub authorize : Settings → (x_api_key : Option String) → Access
authorize settings x_api_key =
    if not settings.require_api_key then granted else check_header settings.api_key x_api_key

-- Whether `create_experiment` refuses the header.
abbrev malformed : Option String → Bool
malformed none = false
malformed (some key) = not (str_eq key "") && not (is_key key)

module _ {F : Type 0} where
  unfoldable pub from_record : ExperimentRecord F → ExperimentResponse F
  from_record r = record {
    experiment_id = r.experiment_id;
    status = r.status;
    configuration = r.configuration;
    progress = r.progress;
    completed_evaluations = r.completed_evaluations;
    attempts = r.attempts;
    current_best_objective = r.current_best_objective;
    accumulated_cost = r.accumulated_cost;
    created_at = r.created_at;
    queued_at = r.queued_at;
    started_at = r.started_at;
    updated_at = r.updated_at;
    completed_at = r.completed_at;
    cancel_requested = r.cancel_requested;
    failure = r.failure;
  }

  -- The two exception handlers, and the status code of a route that returns.
  unfoldable pub respond : (status_code : ℕ) → Result (Body F) → Response F
  respond status_code (ok body) = responds status_code body
  respond status_code (err (not_found_error m)) = responds 404 (coded m "not_found")
  respond status_code (err (conflict_error m)) = responds 409 (coded m "conflict")
  respond status_code (err e) = unhandled e

  abbrev finished : ℕ → Result (Body F) × World F → Response F × World F
  finished status_code (r, w) = (respond status_code r, w)

-- `ready`, from the results of the two calls of `health`.
abbrev verdict : Bool → String
verdict true = "ok"
verdict false = "failed"

abbrev key_entry : Bool → Dict String
key_entry true = ("api_key", "failed") ∷ []
key_entry false = []

unfoldable pub ready : {F : Type 0} → Settings → (repository queue : Bool) → Response F
ready settings repository queue =
    let keyless = settings.require_api_key && not (present settings.api_key) in
    let report =
      ("repository", verdict repository) ∷ ("queue", verdict queue) ∷ key_entry keyless in
    if repository && queue && not keyless
    then responds 200 (ready_with report)
    else responds 503 (dependencies report)

module _ {F : Type 0} ⦃d : Double F⦄ (c : Context F) where
  abbrev view :
      (ExperimentRecord F → Body F)
      → Exec (World F) (ExperimentRecord F × ℕ)
      → Exec (World F) (Body F)
  view f read = read >>= λ found. pure (f found.0)

  module _ (fingerprint_of : ExperimentConfig F → String) (uuid5 : String → String) where
    posted : ExperimentConfig F → Option String → Exec (World F) (Body F)
    posted config key = do
      r ← Service.create c fingerprint_of uuid5 config key
      pure (
          created (record {
            experiment_id = r.experiment_id;
            status = r.status;
            created_at = r.created_at;
          }))

    cancelled : String → Exec (World F) (Body F)
    cancelled id = do r ← Service.request_cancellation c id; pure (experiment (from_record r))

    -- A handler behind `authorize`.
    unfoldable pub handle : Request F → World F → Response F × World F
    unfolding posted cancelled
    handle (create_experiment config key) w =
        if malformed key
        then (responds 400 (detail "invalid Idempotency-Key"), w)
        else finished 202 (posted config key w)
    handle (get_experiment id) w =
        finished 200 (view (λ r. experiment (from_record r)) (fetch (for_record id c)) w)
    handle (get_metrics id) w =
        finished 200 (view (λ r. history id r.metric_history) (fetch (for_record id c)) w)
    handle (get_recommendation id) w =
        finished 200
          (view (λ r. recommended id r.status r.recommendation) (fetch (for_record id c)) w)
    handle (cancel_experiment id) w = finished 200 (cancelled id w)

    unfoldable pub serve :
        Settings → (x_api_key : Option String) → Request F → World F → Response F × World F
    serve settings x_api_key request w = elim (authorize settings x_api_key) [
      | granted ↦ handle request w
      | refused ↦ (responds 401 (detail "invalid or missing API key"), w)
      | crashed ↦ (unhandled (other "comparing strings with non-ASCII characters"), w)
    ]
