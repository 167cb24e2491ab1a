-- ===== src/Worker/Completion.antt =====
-- A worker in a calm environment, in which the lease outlives the run.
pub mod Steps
pub mod Live
pub mod Runs
use azure_ml_optimization_pl.Base.{
  ℕ, ◌+◌, ◌<◌, ◌≤◌, ◌≡◌, refl, Bool, true, false, not, ◌||◌, Option, none, some, String, arith, leb,
}
use azure_ml_optimization_pl.Double.{Double}
use azure_ml_optimization_pl.Domain.{
  ExperimentRecord, EngineResult, ExperimentStatus, running, completed, ExperimentConfig,
}
use azure_ml_optimization_pl.Engine.{
  Run, finished, raised, reports, asks_cancelled, asks_stop, reads_clock,
}
use azure_ml_optimization_pl.World.{World, Context}
use Prim.{⊥}
use azure_ml_optimization_pl.Worker.Changes.{seconds}

module _ {F : Type 0} (c : Context F) where
  -- No reading of the clock comes a visibility timeout after another one.
  pub record IsInTime : Type 0 where
    pub claimed :
        (m n : ℕ)
        → (c.outside m).times.guarded_at < (c.outside n).times.guarded_at + seconds c.timeout
    pub renewed :
        (m n : ℕ)
        → (c.outside m).times.guarded_at < (c.outside n).times.changed_at + seconds c.timeout

  -- A record under this worker's lease, which lasts.
  pub record IsRunning (x : ExperimentRecord F) : Type 0 where
    pub owner : x.lease_owner ≡ some c.owner
    pub expiry : ℕ
    pub leased : x.lease_expires_at ≡ some expiry
    pub lasts : (n : ℕ) → (c.outside n).times.guarded_at < expiry
    pub live : x.status ≡ running
    pub wanted : x.cancel_requested ≡ false
    pub allowed : x.attempts ≤ c.max_attempts

  -- A job that was just submitted with the configuration `k`.
  pub record IsFresh (k : ExperimentConfig F) (x : ExperimentRecord F) : Type 0 where
    pub configured : x.configuration ≡ k
    pub unleased : x.lease_expires_at ≡ none
    pub queued_up : x.status ≡ ExperimentStatus.queued
    pub wanted : x.cancel_requested ≡ false
    pub allowed : x.attempts < c.max_attempts

  -- A job that completed with a result of `P`.
  pub record IsCompleted (P : EngineResult F → Type 0) (x : ExperimentRecord F) : Type 0 where
    pub status : x.status ≡ completed
    pub result : EngineResult F
    pub good : P result
    pub recommended : x.recommendation ≡ some result.recommendation
