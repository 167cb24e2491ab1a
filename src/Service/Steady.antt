-- ===== src/Service/Steady.antt =====
-- The number of the call and the `stop_event` under `reconcile_pending`.
use azure_ml_optimization_pl.Base.{ℕ, Bool, String, List, [], ◌∷◌}
use azure_ml_optimization_pl.Double.{Double}
use azure_ml_optimization_pl.Domain.{ExperimentRecord}
use azure_ml_optimization_pl.Exec.Ensures.{Keeps, Keeps-pure, Keeps-bind, Keeps-if, Ensures-attempt}
use azure_ml_optimization_pl.World.{World, Context, for_record}
use azure_ml_optimization_pl.World.Steady.{
  Steady, IsMoved, next_turn-Steady, update-Steady, fetch-Steady, call-Steady, record_names-Steady,
}
use azure_ml_optimization_pl.Service.{send, dispatch, dispatch_each, reconcile_pending}

module _ {F : Type 0} ⦃d : Double F⦄ (c : Context F) (J : ℕ → Bool → Type 0)
    (moves : IsMoved c J) where
  abbrev I : World F → Type 0
  I = Steady c J

  dispatch-Steady : (r : ExperimentRecord F) → Keeps I (dispatch c r)
  unfolding dispatch send
  dispatch-Steady r =
      let here = for_record r.experiment_id c in
      Keeps-if _ _ _ (Keeps-pure _) (
        Ensures-attempt _ _
          (Keeps-bind _ _ (next_turn-Steady here J moves) λ t.
            Keeps-bind _ _ (call-Steady here J moves _)
              λ _. Keeps-bind _ _ (update-Steady here J moves _) λ _. Keeps-pure _)
          (λ e. Keeps-pure _))

  dispatch_each-Steady : (ids : List String) (n : ℕ) → Keeps I (dispatch_each c ids n)
  unfolding dispatch_each
  dispatch_each-Steady [] n = Keeps-pure n
  dispatch_each-Steady (id ∷ ids) n =
      Keeps-bind _ _ (fetch-Steady (for_record id c) J moves)
        λ (r, now). Keeps-bind _ _ (dispatch-Steady r) λ sent. dispatch_each-Steady ids _

  pub reconcile_pending-Steady : Keeps I (reconcile_pending c)
  unfolding reconcile_pending
  reconcile_pending-Steady =
      Keeps-bind _ _ (record_names-Steady c J moves) λ ids. dispatch_each-Steady ids 0
