-- ===== src/Service/Changes.antt =====
-- The callbacks that `ExperimentService` hands to `mutate`.
use azure_ml_optimization_pl.Base.{true, some, if◌then◌else◌}
use azure_ml_optimization_pl.Errors.{ok}
use azure_ml_optimization_pl.Domain.{cancelling, terminal}
use azure_ml_optimization_pl.Repository.{Change}

module _ {F : Type 0} where
  -- `cancel` of `request_cancellation`.
  unfoldable pub cancel : Change F
  cancel t r =
      if terminal r.status
      then ok r
      else ok (record r { cancel_requested = true; status = cancelling })

  -- The λ of `dispatch`.
  unfoldable pub mark_dispatched : Change F
  mark_dispatched t r = ok (record r { dispatched_at = some t.changed_at })
