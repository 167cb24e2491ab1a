-- ===== src/JsonLog.antt =====
-- logging.py: the payload of `JsonFormatter.format`. The time, the traceback and `json.dumps` are
-- parameters: a value is a text or another object, which `json.dumps` prints.
pub mod Payload
use azure_ml_optimization_pl.Base.{
  String, str_eq, Bool, Dict, insert, Option, none, some, List, [], ◌∷◌, if◌then◌else◌,
}

-- The fields of a `LogRecord`: the attributes of `extra` are `none` where they are absent or None.
pub record LogRecord (V : Type 0) : Type 0 where
  pub levelname : String
  pub name : String
  pub message : String
  pub status : Option V
  pub duration_ms : Option V
  pub strategy : Option V
  pub worker : Option V
  pub attempt : Option V
  pub exc_info : Option String

-- The three context variables.
pub record LogContext : Type 0 where
  pub request_id : Option String
  pub experiment_id : Option String
  pub job_id : Option String

module _ {V : Type 0} (text : String → V) where
  -- `if value: payload[name] = value`
  unfoldable pub put_context : String → Option String → Dict V → Dict V
  put_context name none payload = payload
  put_context name (some value) payload =
      if str_eq value "" then payload else insert name (text value) payload

  -- `if value is not None: payload[name] = value`
  unfoldable pub put_extra : String → Option V → Dict V → Dict V
  put_extra name none payload = payload
  put_extra name (some value) payload = insert name value payload

  put_exception : Option String → Dict V → Dict V
  put_exception none payload = payload
  put_exception (some traceback) payload = insert "exception" (text traceback) payload

  put_contexts : LogContext → Dict V → Dict V
  put_contexts c payload =
      put_context "job_id" c.job_id (
        put_context "experiment_id" c.experiment_id (put_context "request_id" c.request_id payload))

  put_extras : LogRecord V → Dict V → Dict V
  put_extras r payload = put_extra "attempt" r.attempt (
      put_extra "worker" r.worker (
        put_extra "strategy" r.strategy
          (put_extra "duration_ms" r.duration_ms (put_extra "status" r.status payload))))

  unfoldable pub format : (timestamp : String) → LogContext → LogRecord V → Dict V
  unfolding put_exception put_contexts put_extras
  format timestamp c r = put_exception r.exc_info (
      put_extras r (
        put_contexts c (
          ("timestamp", text timestamp)
          ∷ ("level", text r.levelname)
          ∷ ("logger", text r.name)
          ∷ ("message", text r.message)
          ∷ [])))
