-- ===== src/Examples/Operations.antt =====
-- Requests, log lines and secrets at concrete inputs.
use azure_ml_optimization_pl.Base.{String, ◌≡◌, true, none, some, [], ◌∷◌}
use azure_ml_optimization_pl.Errors.{Result, ok, err, other}
use azure_ml_optimization_pl.World.{returns, fails_after}
use azure_ml_optimization_pl.Telemetry.{Request, Response, Served, request_id_of, request_context}
use azure_ml_optimization_pl.Telemetry.Requests.{Observed, request_context-Observed}
use azure_ml_optimization_pl.JsonLog.{LogRecord, LogContext, format}
use azure_ml_optimization_pl.JsonLog.Payload.{Says, format-Says}
use azure_ml_optimization_pl.Scripts.Secrets.{Vault, Calls, api_key, insights_key, main}
use azure_ml_optimization_pl.Scripts.Secrets.Vault.{Preserves, IsThere, main-Preserves}

abbrev request : Request
request = record {
  method = "GET";
  request_id_header = some "client-7";
  route_path = some "/experiments";
}

abbrev idle : Served
idle = record { request_id = none; counts = []; logged = [] }

-- A handler that logs and raises.
abbrev raises : Served → Result Response × Served
raises s = (err (other "ValueError"), record s { logged = 7 ∷ s.logged })

request_context-Observed_example :
    let (r, v) = raises (record idle { request_id = some (request_id_of request "u1") }) in
    let (q, w) = request_context true "u1" raises request idle in Observed request "u1" r v idle q w
request_context-Observed_example = request_context-Observed "u1" raises request idle

abbrev log_record : LogRecord String
log_record = record {
  levelname = "INFO";
  name = "mfbo_platform.worker";
  message = "experiment_completed";
  status = some "completed";
  duration_ms = some "12.5";
  strategy = none;
  worker = some "w1";
  attempt = none;
  exc_info = none;
}

abbrev log_context : LogContext
log_context = record { request_id = none; experiment_id = some "e1"; job_id = some "" }

abbrev same_text : String → String
same_text s = s

format-Says_example :
    Says same_text "2025-01-01T00:00:00+00:00" log_context log_record
      (format same_text "2025-01-01T00:00:00+00:00" log_context log_record)
format-Says_example = format-Says same_text "2025-01-01T00:00:00+00:00" log_context log_record

-- The key is there; the call that sets the connection string fails behind its effect.
abbrev calls : Calls
calls = record {
  at_list = returns;
  at_show = returns;
  at_set = λ name. fails_after (other "timed out");
  token = "new";
  connection_string = "InstrumentationKey=1";
}

abbrev with_key : Vault
with_key = ("api-key", "old") ∷ []

main-Preserves_example :
    let (r, w) = main calls with_key in
    Preserves with_key w × (r ≡ ok tt → IsThere api_key w × IsThere insights_key w)
main-Preserves_example = main-Preserves calls with_key
