-- ===== src/Api/Answers.antt =====
-- `require_api_key`, the readiness route and the cancellation of api.py.
use azure_ml_optimization_pl.Base.{
  String, str_eq, eq_iff, ◌≡◌, refl, ◌↔◌, ◌⊎◌, inl, inr, Bool-cases, true, false, Option, none,
  some, arith, lookup, insert, lookup-insert_self, ℕ, Bool, ◌+◌, if◌then◌else◌,
}
use azure_ml_optimization_pl.Double.{Double}
use azure_ml_optimization_pl.Errors.{ok, err}
use azure_ml_optimization_pl.Domain.{ExperimentConfig, ExperimentRecord, terminal, cancelling}
use azure_ml_optimization_pl.Repository.{Times, Store, missing, get, mutate, prepare}
use azure_ml_optimization_pl.Protocol.{cancels, change_of}
use azure_ml_optimization_pl.Exec.{◌>>=◌, pure}
use azure_ml_optimization_pl.Service.Changes.{cancel}
use azure_ml_optimization_pl.Service
use azure_ml_optimization_pl.World.{World, Context, for_record}
use azure_ml_optimization_pl.World.Quiet.{IsQuiet, tick, turn, update_quiet}
use azure_ml_optimization_pl.Config.{Settings, present}
use azure_ml_optimization_pl.Api.{
  granted, check_header, authorize, experiment, responds, from_record, respond, cancel_experiment,
  handle, ready, unhandled, Response,
}
use azure_ml_optimization_pl.Api.Key.{is_ascii}

-- The header is the configured key, a text that is ASCII and not empty.
abbrev pub HasKey : Option String → Option String → Type 0
HasKey configured given =
    (key : String) × (configured ≡ some key)
    × (given ≡ some key)
    × (str_eq key "" ≡ false)
    × (is_ascii key ≡ true)

keys_granted :
    (configured given : Option String)
    → check_header configured given ≡ granted
    → HasKey configured given
keys_granted none given h = absurd (ground arith)
keys_granted (some k) none h = absurd (ground arith)
keys_granted (some k) (some g) h = ground (arith, eq_iff k g, eq_iff k "")

granted_keys :
    (configured given : Option String)
    → HasKey configured given
    → check_header configured given ≡ granted
granted_keys configured given (key, a, b, named, ascii) = rw (a, b) (ground (arith, eq_iff key key))

-- The API lets a request in exactly when it needs no key, or its header is the configured key,
-- which is not empty and ASCII.
pub authorize_iff :
    (s : Settings) (given : Option String)
    → (authorize s given ≡ granted) ↔ ((s.require_api_key ≡ false) ⊎ HasKey s.api_key given)
unfolding authorize
authorize_iff s given = elim (Bool-cases s.require_api_key) [
  | inl required ↦ rw required (
    λ h. inr (keys_granted s.api_key given h),
    λ h. elim h [ inl e ↦ cc | inr k ↦ granted_keys s.api_key given k ],
  )
  | inr open_api ↦ rw open_api (λ h. inl refl, λ h. refl)
]

abbrev pub status_of : {F : Type 0} → Response F → Option ℕ
status_of (responds n body) = some n
status_of (unhandled e) = none

-- The API answers with status 200 to the readiness route exactly when both dependencies are healthy,
-- and no key is needed or one is configured that is not empty.
pub ready_iff :
    (F : Type 0) (s : Settings) (repository queue : Bool)
    → (status_of (ready {F = F} s repository queue) ≡ some 200) ↔ (
        (repository ≡ true)
        × (queue ≡ true)
        × ((s.require_api_key ≡ false) ⊎ (present s.api_key ≡ true)))
unfolding ready
ready_iff F s repository queue = ground arith

module _ {F : Type 0} where
  -- What a cancellation stores: the request and the status, if the job has not ended; and in any case
  -- the next version and the time of the write.
  abbrev pub cancelled_at : Times → ExperimentRecord F → ExperimentRecord F
  cancelled_at t r =
      if terminal r.status
      then record r { version = r.version + 1; updated_at = t.saved_at }
      else record r {
        cancel_requested = true;
        status = cancelling;
        version = r.version + 1;
        updated_at = t.saved_at;
      }

module _ {F : Type 0} ⦃d : Double F⦄ (c : Context F) (quiet : IsQuiet c.outside)
    (fingerprint_of : ExperimentConfig F → String) (uuid5 : String → String) where
  mutate-cancels :
      (id : String) (t : Times) (r : ExperimentRecord F) (s : Store F)
      → lookup id s ≡ some r
      → mutate id (change_of cancels) t s ≡ (ok (cancelled_at t r), insert id (cancelled_at t r) s)
  unfolding mutate get prepare change_of cancel
  mutate-cancels id t r s found = elim (Bool-cases (terminal r.status)) [
    | inl ended ↦ rw (found, mutate, ended) (ground arith)
    | inr open_job ↦ rw (found, mutate, open_job) (ground arith)
  ]

  mutate-absent :
      (id : String) (t : Times) (s : Store F)
      → lookup id s ≡ none
      → mutate id (change_of cancels) t s ≡ (err (missing id), s)
  unfolding mutate get
  mutate-absent id t s absent = rw (absent, mutate) refl

  -- In an environment that does nothing else: the cancellation of a job that is there answers with
  -- status 200 and the record that it stored; that has the request and the status `cancelling`, if
  -- the job has not ended, and otherwise nothing new but the version and the time of the write; and
  -- no message is sent.
  pub cancel_answer :
      (id : String) (r : ExperimentRecord F) (w : World F)
      → lookup id w.store ≡ some r
      → let (answer, w') = handle c fingerprint_of uuid5 (cancel_experiment id) w in
        let new = cancelled_at (turn c w).times r in
        (answer ≡ responds 200 (experiment (from_record new)))
        × (lookup id w'.store ≡ some new)
        × (w'.calls ≡ w.calls)
  unfolding handle Service.request_cancellation ◌>>=◌ respond
  cancel_answer id r w found = rw (update_quiet (for_record id c) quiet cancels w) (
      rw (mutate-cancels id (turn c w).times r w.store found) (
        unfold tick pure in
        (refl, lookup-insert_self id (cancelled_at (turn c w).times r) w.store, refl)))

  -- In an environment that does nothing else: the cancellation of a job that is not there answers
  -- with status 404, and stores and sends nothing.
  pub cancel_missing :
      (id : String) (w : World F)
      → lookup id w.store ≡ none
      → let (answer, w') = handle c fingerprint_of uuid5 (cancel_experiment id) w in
        (answer ≡ respond 404 (err (missing id))) × (w'.store ≡ w.store) × (w'.calls ≡ w.calls)
  unfolding handle Service.request_cancellation ◌>>=◌ respond
  cancel_missing id w absent =
      rw (update_quiet (for_record id c) quiet cancels w)
        (rw (mutate-absent id (turn c w).times w.store absent) (unfold tick in (refl, refl, refl)))
