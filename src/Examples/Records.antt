-- ===== src/Examples/Records.antt =====
-- The theorems on records, stores and histories at concrete inputs.
use azure_ml_optimization_pl.Base.{
  ◌≡◌, refl, ◌↔◌, true, false, some, List, [], ◌∷◌, arith, lookup, ◌+◌, All, eq_iff, String, ℕ,
}
use azure_ml_optimization_pl.Base.Int.{ℤ, pos}
use azure_ml_optimization_pl.Double.{fixed_point, fixed_point-IsOrdered}
use azure_ml_optimization_pl.Errors.{ok, other}
use azure_ml_optimization_pl.Domain.{ExperimentRecord, MetricPoint, terminal, completed, new_record}
use azure_ml_optimization_pl.Domain.Config.{validate_fidelities}
use azure_ml_optimization_pl.Domain.Accepts.{IsAccepted, validate_fidelities_iff}
use azure_ml_optimization_pl.Repository.{Times, prepare}
use azure_ml_optimization_pl.Repository.Points.{
  upsert, find_point, Rising, upsert-Rising, find-upsert,
}
use azure_ml_optimization_pl.Worker.Changes.{lapsed, claim}
use azure_ml_optimization_pl.Protocol.{
  Update, cancels, dispatches, claims, points, finishes, Act, submits, mutates, write, writes, run,
  change_of,
}
use azure_ml_optimization_pl.Protocol.Lease.{holding, writes-holding, owner_changes, Foreign}
use azure_ml_optimization_pl.Protocol.Runs.{
  IsSoundStore, run-IsSoundStore, empty-IsSoundStore, HasEnded, run-HasEnded,
}
use azure_ml_optimization_pl.Examples.Data.{at_second, config, queued_record, metric_point}

validate_fidelities_iff_example :
    (validate_fidelities config ≡ ok config) ↔ IsAccepted fixed_point-IsOrdered config
validate_fidelities_iff_example = validate_fidelities_iff fixed_point-IsOrdered config

abbrev history : List (MetricPoint ℤ)
history = metric_point 0 (pos 5000) ∷ metric_point 2 (pos 20000) ∷ []

upsert-Rising_example : Rising (upsert (metric_point 1 (pos 9)) (metric_point 2 (pos 1) ∷ history))
upsert-Rising_example = upsert-Rising (metric_point 1 (pos 9)) (metric_point 2 (pos 1) ∷ history)

history-Rising : Rising history
history-Rising = ground arith

find-upsert_example :
    find_point 2 (upsert (metric_point 1 (pos 9)) history) ≡ some (metric_point 2 (pos 20000))
unfolding find_point
find-upsert_example = find-upsert 2 (metric_point 1 (pos 9)) history history-Rising

-- The first claim of a job, by the worker w1.
abbrev claimed : ExperimentRecord ℤ
claimed = write (at_second 10, claims "w1" 60) queued_record

abbrev claimed_by : Update ℤ
claimed_by = claims "w1" 60

owner_changes_example :
    (owner : String) × (timeout : ℕ) × (claimed_by ≡ claims owner timeout)
    × (claimed.lease_owner ≡ some owner)
    × (lapsed queued_record.lease_expires_at 10000000 ≡ true)
    × (terminal queued_record.status ≡ false)
    × (claimed.attempts ≡ queued_record.attempts + 1)
owner_changes_example =
    owner_changes (at_second 10) (claims "w1" 60) queued_record
      (unfold write change_of prepare claim new_record in λ e. cc)

-- While its lease runs: a cancellation, a claim by another worker, a late failure of a third one.
abbrev intrusions : List (Times × Update ℤ)
intrusions =
    (at_second 20, cancels)
    ∷ (at_second 30, claims "w2" 60)
    ∷ (at_second 40, finishes "w3" false (other "out of memory"))
    ∷ []

intrusions-Foreign : All (Foreign "w1" 70000000) intrusions
intrusions-Foreign = (
  (λ e. cc, omega arith),
  (
    (λ e. ground (arith, eq_iff "w2" "w1"), omega arith),
    ((λ e. ground (arith, eq_iff "w3" "w1"), omega arith), tt),
  ),
)

writes-holding_example : holding (writes intrusions claimed) ≡ holding claimed
writes-holding_example =
    writes-holding "w1" 70000000 intrusions claimed
      (unfold write change_of prepare claim new_record in refl)
      (unfold write change_of prepare claim new_record in refl) intrusions-Foreign

-- A submission, a run of the job by w1, and late calls behind its end.
abbrev story : List (Times × Act ℤ)
story =
    (at_second 1, submits 1 2 3 "e1" "j1" config [])
    ∷ (at_second 2, mutates "e1" dispatches)
    ∷ (at_second 3, mutates "e1" (claims "w1" 60))
    ∷ (at_second 4, mutates "e1" (points "w1" (metric_point 0 (pos 5000))))
    ∷ (at_second 5, mutates "e1" (finishes "w1" false (other "out of memory")))
    ∷ []

run-IsSoundStore_example : IsSoundStore (run story [])
run-IsSoundStore_example = run-IsSoundStore story [] empty-IsSoundStore

abbrev late : List (Times × Act ℤ)
late =
    (at_second 6, mutates "e1" cancels)
    ∷ (at_second 7, submits 1 2 3 "e1" "j2" config [])
    ∷ (at_second 8, mutates "e1" (claims "w2" 60))
    ∷ []

abbrev ended : ExperimentRecord ℤ
ended = record queued_record { status = completed; attempts = 1; completed_at = some 9 }

run-HasEnded_example : HasEnded "e1" ended (run late (("e1", ended) ∷ []))
run-HasEnded_example =
    run-HasEnded "e1" ended late (("e1", ended) ∷ []) (ended, (unfold lookup in refl), refl, refl)
