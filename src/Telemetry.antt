-- ===== src/Telemetry.antt =====
-- telemetry.py: the middleware `request_context`, and the metrics of the worker. The request's
-- handler, the uuid4 and the duration are parameters; so is whether `prometheus_client` is
-- installed. Azure Monitor is left out.
pub mod Requests
use azure_ml_optimization_pl.Base.{
  ℕ, zero, suc, String, Bool, true, false, Dict, insert, Option, none, some, List, [], ◌∷◌, ◌++◌,
  leb, ◌||◌, not, if◌then◌else◌, ◌==◌,
}
use azure_ml_optimization_pl.Errors.{Result, ok, err}
use azure_ml_optimization_pl.Exec.{Exec}

-- What the middleware reads of a request: its method, what `headers.get("X-Request-ID")` returns,
-- and the path of its route, where it has one.
pub record Request : Type 0 where
  pub method : String
  pub request_id_header : Option String
  pub route_path : Option String

pub record Response : Type 0 where
  pub status_code : ℕ
  pub headers : Dict String

-- An increment of `HTTP_REQUESTS` and an observation of `HTTP_DURATION`, with the labels.
pub record Count : Type 0 where
  pub method : String
  pub route : String
  pub status : ℕ

-- The context variable, the counts in their order, and the statuses that were logged.
pub record Served : Type 0 where
  pub request_id : Option String
  pub counts : List Count
  pub logged : List ℕ

-- `text[:n]`
abbrev pub first_characters : ℕ → String → String
first_characters zero s = ""
first_characters (suc n) String.[] = ""
first_characters (suc n) (String.◌∷◌ c s) = String.◌∷◌ c (first_characters n s)

abbrev pub or_else : {A : Type 0} → Option A → A → A
or_else none a = a
or_else (some b) a = b

abbrev pub request_id_of : Request → (uuid : String) → String
request_id_of request uuid = first_characters 128 (or_else request.request_id_header uuid)

abbrev pub status_of : Result Response → ℕ
status_of (ok response) = response.status_code
status_of (err e) = 500

abbrev pub with_header : String → Result Response → Result Response
with_header id (ok response) =
    ok (record response { headers = insert "X-Request-ID" id response.headers })
with_header id (err e) = err e

-- The `finally` block, with the value of the context variable before the request.
unfoldable pub complete :
    (prometheus : Bool) → Request → Result Response → (before : Option String) → Served → Served
complete prometheus request response before s =
    let status = status_of response in
    let count : Count = record {
      method = request.method;
      route = or_else request.route_path "unmatched";
      status = status;
    } in
    record s {
      request_id = before;
      counts = if prometheus then s.counts ++ count ∷ [] else s.counts;
      logged = s.logged ++ status ∷ [];
    }

unfoldable pub request_context :
    (prometheus : Bool) → (uuid : String) → Exec Served Response → Request → Exec Served Response
request_context prometheus uuid call_next request s =
    let id = request_id_of request uuid in
    let (response, served) = call_next (record s { request_id = some id }) in
    (with_header id response, complete prometheus request response s.request_id served)

-- The dict of `worker_metrics`, by the names of its metrics.
unfoldable pub worker_metrics : (prometheus : Bool) → Dict String
worker_metrics prometheus =
    if prometheus
    then ("jobs", "mfbo_worker_jobs_total")
      ∷ ("duration", "mfbo_worker_job_duration_seconds")
      ∷ ("queue", "mfbo_worker_queue_duration_seconds")
      ∷ []
    else []

-- The port that `start_worker_metrics_server` serves, if it starts; a port below 0 counts as 0.
unfoldable pub start_worker_metrics_server : (prometheus : Bool) → (port : ℕ) → Option ℕ
start_worker_metrics_server prometheus port =
    if leb port 0 || not prometheus then none else some port
