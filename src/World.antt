-- ===== src/World.antt =====
-- What a worker sees while it processes a job: the repository, which other processes write to, the
-- thread that renews the lease, and services that may fail. Every call out of the worker takes one
-- turn of an arbitrary environment.
pub mod Over
pub mod Calm
pub mod Kept
pub mod Quiet
pub mod Steady
use azure_ml_optimization_pl.Base.{
  ℕ, ◌+◌, String, Dict, Bool, true, false, not, ◌&&◌, ◌||◌, Option, none, some, List, [], ◌∷◌, ◌++◌,
  map,
}
use azure_ml_optimization_pl.Double.{Double}
use azure_ml_optimization_pl.Errors.{Error, Result, ok, err}
use azure_ml_optimization_pl.Domain.{ExperimentConfig, ExperimentRecord, Value, JobMessage}
use azure_ml_optimization_pl.Repository.{Times, Store, Change, get, mutate, create}
use azure_ml_optimization_pl.Protocol.{Update, renews, Act, change_of, run}
use azure_ml_optimization_pl.Exec.{Exec, pure, gets, modify, ◌>>=◌, ◌>>◌}

-- How a call of a service ends: it may fail before or after it took effect.
pub data Answer : Type 0 where
  returns : Answer
  fails_before fails_after : Error → Answer

-- A wake-up of the thread of `LeaseRenewer`: whether `queue.renew` returns, and the call of
-- `_owned` behind it.
pub record Beat : Type 0 where
  pub visible : Bool
  pub times : Times
  pub answer : Answer

-- What happens before a call of the worker (writes of other processes, a wake-up of the thread, a
-- signal), and how the call goes.
pub record Turn (F : Type 0) : Type 0 where
  pub acts : List (Times × Act F)
  pub beat : Option Beat
  pub shutdown : Bool
  pub times : Times
  pub answer : Answer
  pub reply : String
  pub elapsed : F

-- The calls of services other than the repository, with their arguments.
pub data Call (F : Type 0) : Type 0 where
  receive renew_visibility acknowledge abandon : Call F
  enqueue : JobMessage → Call F
  put : (name : String) → Call F
  set_tracking_uri set_experiment start_run : String → Call F
  log_params : ExperimentConfig F → Call F
  set_tags : Dict String → Call F
  log_metrics : Dict F → (step : ℕ) → Call F
  log_summary : Dict (Value F) → Call F
  log_count : ℕ → Call F
  log_metric : String → F → Call F
  set_tag : (key value : String) → Call F
  end_run : (status : String) → Call F

-- The variable `action` of `process`.
pub data Settlement : Type 0 where
  ack requeue : Settlement

pub record World (F : Type 0) : Type 0 where
  pub store : Store F
  pub round : ℕ
  -- `LeaseRenewer`: whether its thread runs, and its event `lost`.
  pub renewing : Bool
  pub lost : Bool
  -- The worker's `stop_event`.
  pub stopping : Bool
  pub action : Option Settlement
  -- `ExperimentTracker`: `_active` and `run_id`.
  pub active : Bool
  pub run_id : Option String
  pub calls : List (Call F)

-- The delivery, the worker's settings, and the environment, by the number of the call.
pub record Context (F : Type 0) : Type 0 where
  pub experiment_id : String
  pub owner : String
  pub timeout : ℕ
  pub max_attempts : ℕ
  pub tracking_uri : Option String
  pub experiment_name : String
  pub outside : ℕ → Turn F

module _ {F : Type 0} where
  abbrev pub stamp : ℕ → Result (ExperimentRecord F) → Result (ExperimentRecord F × ℕ)
  stamp now (ok r) = ok (r, now)
  stamp now (err e) = err e

  -- `mutate` of a repository that may fail.
  unfoldable pub mutate_under :
      Answer → String → Change F → Times → Store F → Result (ExperimentRecord F) × Store F
  mutate_under returns id change t s = mutate id change t s
  mutate_under (fails_before e) id change t s = (err e, s)
  mutate_under (fails_after e) id change t s = (err e, (mutate id change t s).1)

  unfoldable pub create_under : Answer → ExperimentRecord F → Store F → Result (Unit {0}) × Store F
  create_under returns r s = create r s
  create_under (fails_before e) r s = (err e, s)
  create_under (fails_after e) r s = (err e, (create r s).1)

abbrev pub answered {ℓ} : {A : Type ℓ} → Answer → Result A → Result A
answered returns r = r
answered (fails_before e) r = err e
answered (fails_after e) r = err e

abbrev pub failed_result {ℓ} : {A : Type ℓ} → Result A → Bool
failed_result (ok a) = false
failed_result (err e) = true

-- The same process at another record.
abbrev pub for_record : {F : Type 0} → String → Context F → Context F
for_record id c = record c { experiment_id = id }

module _ {F : Type 0} ⦃d : Double F⦄ (c : Context F) where
  -- `_run` of `LeaseRenewer` at a wake-up: `refresh`, and the end of the thread if that raises.
  unfoldable pub heartbeat : Option Beat → World F → World F
  heartbeat none w = w
  heartbeat (some b) w =
      let (r, s) =
        mutate_under b.answer c.experiment_id (change_of (renews c.owner c.timeout)) b.times
          w.store in
      elim (w.renewing && not w.lost) [
        | false ↦ w
        | true ↦ elim b.visible [
          | false ↦ record w { lost = true }
          | true ↦ record w { store = s; lost = failed_result r }
        ]
      ]

  unfoldable pub interfere : Turn F → World F → World F
  interfere t w =
      let others = record w { store = run t.acts w.store; stopping = w.stopping || t.shutdown } in
      heartbeat t.beat others

  unfoldable pub next_turn : Exec (World F) (Turn F)
  next_turn w = let t = c.outside w.round in (ok t, interfere t (record w { round = w.round + 1 }))

  store_result : Turn F → Update F → Exec (World F) (ExperimentRecord F)
  store_result t u w =
      let (r, s) = mutate_under t.answer c.experiment_id (change_of u) t.times w.store in
      (r, record w { store = s })

  -- A mutation of the job's record.
  unfoldable pub update : Update F → Exec (World F) (ExperimentRecord F)
  unfolding store_result
  update u = do t ← next_turn; store_result t u

  read_store : Turn F → Exec (World F) (ExperimentRecord F × ℕ)
  read_store t w = (answered t.answer (stamp t.times.guarded_at (get c.experiment_id w.store)), w)

  -- `repository.get` of the job's record, with the clock behind it.
  unfoldable pub fetch : Exec (World F) (ExperimentRecord F × ℕ)
  unfolding read_store
  fetch = do t ← next_turn; read_store t

  answer_call : Call F → Turn F → Exec (World F) (Turn F)
  answer_call x t w = (answered t.answer (ok t), record w { calls = w.calls ++ x ∷ [] })

  -- A call of another service.
  unfoldable pub call : Call F → Exec (World F) (Turn F)
  unfolding answer_call
  call x = do t ← next_turn; answer_call x t

  store_new : ExperimentRecord F → Turn F → Exec (World F) (Unit {0})
  store_new r t w = let (q, s) = create_under t.answer r w.store in (q, record w { store = s })

  -- `repository.create`
  unfoldable pub create_record : ExperimentRecord F → Exec (World F) (Unit {0})
  unfolding store_new
  create_record r = do t ← next_turn; store_new r t

  list_names : Turn F → Exec (World F) (List String)
  list_names t w = (answered t.answer (ok (map (λ e. e.0) w.store)), w)

  -- The names of the records that are there, in `iter_records`.
  unfoldable pub record_names : Exec (World F) (List String)
  unfolding list_names
  record_names = do t ← next_turn; list_names t
