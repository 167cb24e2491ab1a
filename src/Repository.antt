-- ===== src/Repository.antt =====
-- repositories.py: what a repository of experiment records does for its callers. `Store` is the
-- content; the implementation with ETags is in `Blob`.
pub mod Points
pub mod Blob
pub mod Files
use azure_ml_optimization_pl.Base.{
  ℕ, ◌+◌, String, Bool, not, Dict, lookup, insert, map, Option, none, some, List, [], ◌∷◌, ◌==◌,
}
use Prim.Native.String.{◌++◌}
use azure_ml_optimization_pl.Errors.{
  Error, Result, ok, err, not_found_error, conflict_error, ◌>>=◌, check,
}
use azure_ml_optimization_pl.Domain.{ExperimentRecord, MetricPoint}
use Points.{upsert}

-- The readings of `utc_now()` in one `mutate`: by the guard of the callback, by the callback
-- behind it, and for `updated_at`.
pub record Times : Type 0 where
  pub guarded_at : ℕ
  pub changed_at : ℕ
  pub saved_at : ℕ

abbrev pub Store : Type 0 → Type 0
Store F = Dict (ExperimentRecord F)

-- A callback of `mutate`: it returns the new record or raises.
abbrev pub Change : Type 0 → Type 0
Change F = Times → ExperimentRecord F → Result (ExperimentRecord F)

abbrev pub missing : String → Error
missing id = not_found_error ("experiment " ++ id ++ " was not found")

module _ {F : Type 0} where
  abbrev pub or_missing : String → Option (ExperimentRecord F) → Result (ExperimentRecord F)
  or_missing id none = err (missing id)
  or_missing id (some r) = ok r

  unfoldable pub get : String → Store F → Result (ExperimentRecord F)
  get id s = or_missing id (lookup id s)

  -- The part of `mutate` between the read and the write, which both implementations share.
  unfoldable pub prepare : Change F → Times → ExperimentRecord F → Result (ExperimentRecord F)
  prepare change t current = do
    updated ← change t current
    check (not (updated.version == current.version))
        (conflict_error "mutation callbacks must not alter the record version")
        (ok (record updated { version = updated.version + 1; updated_at = t.saved_at }))

  -- A raised error leaves the store alone.
  abbrev pub save :
      String → Store F → Result (ExperimentRecord F) → Result (ExperimentRecord F) × Store F
  save id s (ok r) = (ok r, insert id r s)
  save id s (err e) = (err e, s)

  unfoldable pub mutate :
      String → Change F → Times → Store F → Result (ExperimentRecord F) × Store F
  mutate id change t s = save id s (get id s >>= prepare change t)

  abbrev pub create_missing :
      ExperimentRecord F → Store F → Option (ExperimentRecord F) → Result (Unit {0}) × Store F
  create_missing r s (some old) =
      (err (conflict_error ("experiment " ++ r.experiment_id ++ " already exists")), s)
  create_missing r s none = (ok tt, insert r.experiment_id r s)

  unfoldable pub create : ExperimentRecord F → Store F → Result (Unit {0}) × Store F
  create r s = create_missing r s (lookup r.experiment_id s)

  append_change : MetricPoint F → Change F
  append_change metric t r = ok (record r { metric_history = upsert metric r.metric_history })

  unfoldable pub append_metric :
      String → MetricPoint F → Times → Store F → Result (ExperimentRecord F) × Store F
  unfolding append_change
  append_metric id metric t s = mutate id (append_change metric) t s

  unfoldable pub list_metrics : String → Store F → Result (List (MetricPoint F))
  list_metrics id s = do r ← get id s; ok r.metric_history

  unfoldable pub iter_records : Store F → List (ExperimentRecord F)
  iter_records s = map (λ e. e.1) s
