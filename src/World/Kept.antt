-- ===== src/World/Kept.antt =====
-- An invariant of the world under the calls of a worker other than an acknowledgement, the tracker
-- and the callbacks of `process`.
use azure_ml_optimization_pl.Base.{String, ◌≡◌, Bool, false, Option}
use azure_ml_optimization_pl.Double.{Double}
use azure_ml_optimization_pl.Protocol.{Update}
use azure_ml_optimization_pl.Exec.Ensures.{Keeps}
use azure_ml_optimization_pl.World.{World, Context, Call, next_turn, update, fetch, call}
use azure_ml_optimization_pl.World.Over.{is_acknowledge}

module _ {F : Type 0} ⦃d : Double F⦄ where
  -- The calls of services, and the state of the tracker.
  pub record IsLogged (c : Context F) (I : World F → Type 0) : Type 0 where
    pub calls : (x : Call F) → is_acknowledge x ≡ false → Keeps I (call c x)
    pub tracker :
        (active : Bool) (run_id : Option String) (w : World F)
        → I w
        → I (record w { active = active; run_id = run_id })

  pub record IsKept (c : Context F) (I : World F → Type 0) : Type 0 where
    pub logged : IsLogged c I
    pub turns : Keeps I (next_turn c)
    pub updates : (u : Update F) → Keeps I (update c u)
    pub fetches : Keeps I (fetch c)
    pub thread :
        (renewing lost : Bool) (w : World F)
        → I w
        → I (record w { renewing = renewing; lost = lost })
