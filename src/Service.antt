-- ===== src/Service.antt =====
-- service.py: `ExperimentService`. The canonical JSON of a request with its SHA-256, and `uuid5`,
-- are parameters; a `uuid4` is the reply of the environment.
pub mod Changes
pub mod Idempotency
pub mod Outbox
pub mod Reconcile
pub mod Steady
use azure_ml_optimization_pl.Base.{
  ℕ, ◌+◌, String, str_eq, Dict, lookup, insert, Bool, true, false, not, ◌||◌, Option, none, some,
  List, [], ◌∷◌, if◌then◌else◌,
}
use azure_ml_optimization_pl.Double.{Double}
use azure_ml_optimization_pl.Errors.{Error, conflict_error}
use azure_ml_optimization_pl.Domain.{
  terminal, ExperimentConfig, ExperimentRecord, Value, text, JobMessage, new_record,
}
use azure_ml_optimization_pl.Protocol.{cancels, dispatches}
use azure_ml_optimization_pl.Protocol.Record.{is_some}
use azure_ml_optimization_pl.Exec.{Exec, pure, raise, raise_if, attempt, ◌>>=◌, ◌>>◌}
use azure_ml_optimization_pl.World.{
  World, Context, for_record, enqueue, next_turn, update, fetch, call, create_record, record_names,
}

abbrev key_name : String
key_name = "request_fingerprint"

-- `metadata.get("request_fingerprint") == fingerprint`
abbrev pub has_fingerprint : {F : Type 0} → Option (Value F) → String → Bool
has_fingerprint (some (text f)) fingerprint = str_eq f fingerprint
has_fingerprint _ fingerprint = false

module _ {F : Type 0} ⦃d : Double F⦄ (c : Context F) where
  send : ExperimentRecord F → Exec (World F) Bool
  send r =
      let here = for_record r.experiment_id c in
      do
        t ← next_turn here
        call here (
            enqueue (record {
              job_id = r.job_id;
              experiment_id = r.experiment_id;
              enqueued_at = t.times.changed_at;
            }))
        update here dispatches
        pure true

  unfoldable pub dispatch : ExperimentRecord F → Exec (World F) Bool
  unfolding send
  dispatch r =
      if is_some r.dispatched_at || terminal r.status
      then pure false
      else attempt (send r) (λ e. pure false)

  -- The loop of `reconcile_pending`, which adds up how many dispatches returned `True`.
  unfoldable pub dispatch_each : List String → ℕ → Exec (World F) ℕ
  dispatch_each [] n = pure n
  dispatch_each (id ∷ ids) n = do
    (r, now) ← fetch (for_record id c)
    sent ← dispatch r
    dispatch_each ids (if sent then n + 1 else n)

  unfoldable pub reconcile_pending : Exec (World F) ℕ
  reconcile_pending = do ids ← record_names c; dispatch_each ids 0

  unfoldable pub request_cancellation : String → Exec (World F) (ExperimentRecord F)
  request_cancellation id = update (for_record id c) cancels

  module _ (fingerprint_of : ExperimentConfig F → String) (uuid5 : String → String) where
    experiment_id_for : Option String → Exec (World F) String
    experiment_id_for none = next_turn c >>= λ t. pure t.reply
    experiment_id_for (some key) =
        if str_eq key "" then (next_turn c >>= λ t. pure t.reply) else pure (uuid5 key)

    -- `except ConflictError` around `repository.create`: whether the record is new.
    conflicts : Error → Exec (World F) Bool
    conflicts (conflict_error m) = pure false
    conflicts e = raise e

    -- The code of `except ConflictError`, up to its `return`.
    reuse : String → String → Exec (World F) Bool
    reuse id fingerprint = do
      (existing, now) ← fetch (for_record id c)
      raise_if (not (has_fingerprint (lookup key_name existing.result_metadata) fingerprint))
          (conflict_error "idempotency key was already used with a different request")
      dispatch existing

    dispatch_created : Bool → ExperimentRecord F → String → Exec (World F) Bool
    dispatch_created true r fingerprint = dispatch r
    dispatch_created false r fingerprint = reuse r.experiment_id fingerprint

    unfoldable pub create : ExperimentConfig F → Option String → Exec (World F) (ExperimentRecord F)
    unfolding experiment_id_for conflicts reuse dispatch_created
    create config key = do
      id ← experiment_id_for key
      job ← next_turn c
      t ← next_turn c
      let fingerprint = fingerprint_of config
      let r : ExperimentRecord F =
          new_record (d.literal 0 0) t.times.guarded_at t.times.changed_at t.times.saved_at id
            job.reply config ((key_name, text fingerprint) ∷ [])
      created ← attempt (create_record c r >> pure true) conflicts
      dispatch_created created r fingerprint
      (stored, now) ← fetch (for_record id c)
      pure stored
