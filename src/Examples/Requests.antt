-- ===== src/Examples/Requests.antt =====
-- The theorems on the API and the queue at concrete inputs.
use azure_ml_optimization_pl.Base.{
  ℕ, arith, eq_iff, String, ◌≡◌, refl, ◌↔◌, ◌⊎◌, Bool, true, false, some, List, [], ◌∷◌, lookup,
  insert,
}
use azure_ml_optimization_pl.Base.Int.{ℤ}
use azure_ml_optimization_pl.Double.{fixed_point}
use azure_ml_optimization_pl.Errors.{ok}
use azure_ml_optimization_pl.Domain.{ExperimentConfig, ExperimentRecord, JobMessage, new_record}
use azure_ml_optimization_pl.World.{World, enqueue}
use azure_ml_optimization_pl.Queue.{empty}
use azure_ml_optimization_pl.Queue.Delivery.{
  Delivery, Op, submits, takes, settles, gives_back, steps, IsBalanced, IsBalancedAfter,
  steps-IsBalanced,
}
use azure_ml_optimization_pl.Config.{Settings, defaults}
use azure_ml_optimization_pl.Api.{
  granted, authorize, experiment, responds, from_record, cancel_experiment, handle,
}
use azure_ml_optimization_pl.Api.Answers.{cancelled_at, HasKey, authorize_iff, cancel_answer}
use azure_ml_optimization_pl.Examples.Data.{
  at_second, queued_record, quiet_outside-IsQuiet, context, world_with,
}
use azure_ml_optimization_pl.Service.Outbox.Answered.{Sent, dispatch-Sent}
use azure_ml_optimization_pl.Service.Outbox.{dispatch_pending, message_of, mark_of}
use azure_ml_optimization_pl.Service.{dispatch, reconcile_pending}
use azure_ml_optimization_pl.Service.Reconcile.{IsKeyed, is_pending, Dispatched}
use azure_ml_optimization_pl.Service.Reconcile.Sweep.{reconcile_pending-Dispatched}

abbrev guarded_api : Settings
guarded_api = record defaults { require_api_key = true; api_key = some "secret" }

authorize_iff_example :
    (authorize guarded_api (some "guess") ≡ granted)
    ↔ ((true ≡ false) ⊎ HasKey (some "secret") (some "guess"))
authorize_iff_example = authorize_iff guarded_api (some "guess")

abbrev constant : ExperimentConfig ℤ → String
constant settings = "f1"

abbrev same_name : String → String
same_name key = key

abbrev stored : World ℤ
stored = world_with (("e1", queued_record) ∷ [])

cancel_answer_example :
    let (answer, w') = handle context constant same_name (cancel_experiment "e1") stored in
    let new = cancelled_at (at_second 0) queued_record in
    (answer ≡ responds 200 (experiment (from_record new)))
    × (lookup "e1" w'.store ≡ some new)
    × (w'.calls ≡ [])
cancel_answer_example =
    cancel_answer context quiet_outside-IsQuiet constant same_name "e1" queued_record stored
      (unfold lookup in refl)

abbrev no_delivery : Delivery
no_delivery = record { queue = empty; held = []; submitted = []; acknowledged = [] }

no_delivery-IsBalanced : IsBalanced no_delivery
no_delivery-IsBalanced = record { conserved = λ p. refl; counted = refl }

abbrev job_message : JobMessage
job_message = record { job_id = "j1"; experiment_id = "e1"; enqueued_at = 1 }

-- A job is delivered, given back, delivered again and acknowledged.
abbrev redelivery : List Op
redelivery = submits job_message ∷ takes ∷ gives_back 0 ∷ takes ∷ settles 0 ∷ []

steps-IsBalanced_example : IsBalancedAfter (steps redelivery no_delivery)
steps-IsBalanced_example = steps-IsBalanced redelivery no_delivery no_delivery-IsBalanced

dispatch-Sent_example :
    (b : Bool) × ((dispatch context queued_record stored).0 ≡ ok b)
    × (b ≡ true → Sent queued_record context stored (dispatch context queued_record stored).1)
dispatch-Sent_example = dispatch-Sent queued_record context stored

dispatch_pending_example :
    let (b, w') = dispatch context queued_record stored in
    (b ≡ ok true)
    × (w'.calls ≡ enqueue (message_of context quiet_outside-IsQuiet queued_record stored) ∷ [])
    × (w'.store
        ≡ insert "e1" (mark_of context quiet_outside-IsQuiet queued_record stored) stored.store)
unfolding new_record
dispatch_pending_example =
    dispatch_pending context quiet_outside-IsQuiet queued_record queued_record stored
      (unfold new_record in refl) (unfold lookup new_record in refl)

stored-IsKeyed : IsKeyed stored.store
unfolding lookup new_record
stored-IsKeyed id r found = ground (arith, eq_iff "e1" id)

reconcile_pending-Dispatched_example :
    let (q, w') = reconcile_pending context stored in
    ((n : ℕ) × (q ≡ ok n))
    × ((r : ExperimentRecord ℤ)
        → lookup r.experiment_id stored.store ≡ some r
        → is_pending r ≡ true
        → Dispatched r w'.calls w'.store)
reconcile_pending-Dispatched_example =
    reconcile_pending-Dispatched context quiet_outside-IsQuiet stored stored-IsKeyed
