-- ===== src/JsonLog/Payload.antt =====
-- The keys of a log line.
use azure_ml_optimization_pl.Base.{
  String, str_eq, Bool-cases, inl, inr, ◌≡◌, refl, Dict, lookup, lookup-insert, Option, none, some,
  if◌then◌else◌, arith,
}
use azure_ml_optimization_pl.JsonLog.{
  LogRecord, LogContext, put_context, put_extra, put_exception, put_contexts, put_extras, format,
}

-- The value of a context key: none where the variable is not set or empty.
abbrev pub context_value : {V : Type 0} → (String → V) → Option String → Option V
context_value text none = none
context_value text (some value) = if str_eq value "" then none else some (text value)

abbrev pub first_of : {V : Type 0} → Option V → Option V → Option V
first_of none o = o
first_of (some v) o = some v

abbrev pub texts_of : {V : Type 0} → (String → V) → Option String → Option V
texts_of text none = none
texts_of text (some s) = some (text s)

module _ {V : Type 0} (text : String → V) where
  lookup-put_context :
      (name j : String) (o : Option String) (payload : Dict V)
      → lookup j (put_context text name o payload) ≡ (
          if str_eq name j
          then first_of (context_value text o) (lookup j payload)
          else lookup j payload)
  unfolding put_context
  lookup-put_context name j none payload = elim (Bool-cases (str_eq name j)) [
    | inl e ↦ rw e refl
    | inr e ↦ rw e refl
  ]
  lookup-put_context name j (some value) payload = elim (Bool-cases (str_eq value "")) [
    | inl empty ↦ ground (arith, lookup-insert name j (text value) payload, empty)
    | inr full ↦ ground (arith, lookup-insert name j (text value) payload, full)
  ]

  lookup-put_extra :
      (name j : String) (o : Option V) (payload : Dict V)
      → lookup j (put_extra text name o payload)
        ≡ (if str_eq name j then first_of o (lookup j payload) else lookup j payload)
  unfolding put_extra
  lookup-put_extra name j none payload = elim (Bool-cases (str_eq name j)) [
    | inl e ↦ rw e refl
    | inr e ↦ rw e refl
  ]
  lookup-put_extra name j (some value) payload = ground (arith, lookup-insert name j value payload)

  lookup-put_exception :
      (j : String) (o : Option String) (payload : Dict V)
      → lookup j (put_exception text o payload) ≡ (
          if str_eq "exception" j
          then first_of (texts_of text o) (lookup j payload)
          else lookup j payload)
  unfolding put_exception
  lookup-put_exception j none payload = elim (Bool-cases (str_eq "exception" j)) [
    | inl e ↦ rw e refl
    | inr e ↦ rw e refl
  ]
  lookup-put_exception j (some traceback) payload =
      ground (arith, lookup-insert "exception" j (text traceback) payload)

  first_of-none : (o : Option V) → first_of o none ≡ o
  first_of-none none = refl
  first_of-none (some v) = refl

  ruleset put_laws = (lookup-put_context, lookup-put_extra, lookup-put_exception, first_of-none)

  -- What a log line has under its keys.
  pub record Says (timestamp : String) (c : LogContext) (r : LogRecord V) (payload : Dict V)
      : Type 0 where
    pub timestamp_key : lookup "timestamp" payload ≡ some (text timestamp)
    pub level_key : lookup "level" payload ≡ some (text r.levelname)
    pub logger_key : lookup "logger" payload ≡ some (text r.name)
    pub message_key : lookup "message" payload ≡ some (text r.message)
    pub request_id_key : lookup "request_id" payload ≡ context_value text c.request_id
    pub experiment_id_key : lookup "experiment_id" payload ≡ context_value text c.experiment_id
    pub job_id_key : lookup "job_id" payload ≡ context_value text c.job_id
    pub status_key : lookup "status" payload ≡ r.status
    pub duration_key : lookup "duration_ms" payload ≡ r.duration_ms
    pub strategy_key : lookup "strategy" payload ≡ r.strategy
    pub worker_key : lookup "worker" payload ≡ r.worker
    pub attempt_key : lookup "attempt" payload ≡ r.attempt
    pub exception_key : lookup "exception" payload ≡ texts_of text r.exc_info

  -- A log line has the message's own four keys, whatever the context and the extra attributes are;
  -- the key of a context variable exactly where it has a value that is not empty; and the keys of
  -- the extra attributes and of the exception exactly where there is one.
  pub format-Says :
      (timestamp : String) (c : LogContext) (r : LogRecord V)
      → Says timestamp c r (format text timestamp c r)
  unfolding format put_contexts put_extras lookup
  format-Says timestamp c r = record {
    timestamp_key = simp put_laws;
    level_key = simp put_laws;
    logger_key = simp put_laws;
    message_key = simp put_laws;
    request_id_key = simp put_laws;
    experiment_id_key = simp put_laws;
    job_id_key = simp put_laws;
    status_key = simp put_laws;
    duration_key = simp put_laws;
    strategy_key = simp put_laws;
    worker_key = simp put_laws;
    attempt_key = simp put_laws;
    exception_key = simp put_laws;
  }
