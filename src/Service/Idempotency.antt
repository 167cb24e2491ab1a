-- ===== src/Service/Idempotency.antt =====
-- `create` of service.py with a key that was used before, in an environment that does nothing
-- else.
use azure_ml_optimization_pl.Base.{
  String, str_eq, ◌≡◌, refl, true, false, ◌||◌, some, [], ◌∷◌, lookup, ◌∙◌,
}
use azure_ml_optimization_pl.Double.{Double}
use azure_ml_optimization_pl.Errors.{ok, err, conflict_error}
use azure_ml_optimization_pl.Domain.{ExperimentConfig, ExperimentRecord, terminal, new_record, text}
use azure_ml_optimization_pl.Repository.{Store}
use azure_ml_optimization_pl.Repository
use azure_ml_optimization_pl.Protocol.Record.{is_some}
use azure_ml_optimization_pl.Exec.{◌>>=◌, attempt, raise_if, pure}
use azure_ml_optimization_pl.World.{World, Context, for_record, create_record, fetch}
use azure_ml_optimization_pl.World.Quiet.{
  IsQuiet, tick, next_turn_quiet, fetch_quiet, create_quiet, turn,
}
use azure_ml_optimization_pl.Service.{
  key_name, has_fingerprint, dispatch, create, conflicts, reuse, experiment_id_for,
}
use Prim.Native.String.{◌++◌}
use azure_ml_optimization_pl.Exec.Ensures.{bind_ok}

create-present :
    {F : Type 0} (r old : ExperimentRecord F) (s : Store F)
    → lookup r.experiment_id s ≡ some old
    → Repository.create r s
      ≡ (err (conflict_error ("experiment " ++ r.experiment_id ++ " already exists")), s)
unfolding Repository.create
create-present r old s found = rw (found, Repository.create)

module _ {F : Type 0} ⦃d : Double F⦄ (c : Context F) (quiet : IsQuiet c.outside)
    (fingerprint_of : ExperimentConfig F → String) (uuid5 : String → String) where
  create_existing :
      (r old : ExperimentRecord F) (w : World F)
      → lookup r.experiment_id w.store ≡ some old
      → (attempt (create_record c r >>= λ _. pure true) (conflicts c fingerprint_of uuid5)) w
        ≡ (ok false, tick c w)
  unfolding attempt ◌>>=◌ conflicts pure
  create_existing r old w found =
      rw (create_quiet c quiet r w) (rw (create-present r old w.store found) (unfold tick in refl))

  reuse_conflict :
      (id fingerprint : String) (old : ExperimentRecord F) (w : World F)
      → lookup id w.store ≡ some old
      → has_fingerprint (lookup key_name old.result_metadata) fingerprint ≡ false
      → reuse c fingerprint_of uuid5 id fingerprint w ≡ (
        err (conflict_error "idempotency key was already used with a different request"),
        tick c w,
      )
  unfolding reuse ◌>>=◌ raise_if
  reuse_conflict id fingerprint old w found differs =
      rw (fetch_quiet (for_record id c) quiet w old found) (rw differs (unfold tick in refl))

  reuse_dispatched :
      (id fingerprint : String) (old : ExperimentRecord F) (w : World F)
      → lookup id w.store ≡ some old
      → has_fingerprint (lookup key_name old.result_metadata) fingerprint ≡ true
      → is_some old.dispatched_at || terminal old.status ≡ true
      → reuse c fingerprint_of uuid5 id fingerprint w ≡ (ok false, tick c w)
  unfolding reuse ◌>>=◌ raise_if dispatch pure
  reuse_dispatched id fingerprint old w found same sent =
      rw (fetch_quiet (for_record id c) quiet w old found)
        (rw (same, sent) (unfold tick pure in refl))

  -- The record that `create` makes for a request with a key.
  abbrev fresh_record : World F → ExperimentConfig F → String → ExperimentRecord F
  fresh_record w config key =
      let t = (turn c (tick c w)).times in
      new_record (d.literal 0 0) t.guarded_at t.changed_at t.saved_at (uuid5 key) (turn c w).reply
        config ((key_name, text (fingerprint_of config)) ∷ [])

  experiment_id-fresh_record :
      (w : World F) (config : ExperimentConfig F) (key : String)
      → (fresh_record w config key).experiment_id ≡ uuid5 key
  unfolding new_record
  experiment_id-fresh_record w config key = refl

  named_id :
      (key : String) (w : World F)
      → str_eq key "" ≡ false
      → experiment_id_for c fingerprint_of uuid5 (some key) w ≡ (ok (uuid5 key), w)
  unfolding experiment_id_for pure
  named_id key w named = rw named refl

  -- `create` with a used key is `reuse`, and the read of the record behind it.
  create_used :
      (config : ExperimentConfig F) (key : String) (old : ExperimentRecord F) (w : World F)
      → str_eq key "" ≡ false
      → lookup (uuid5 key) w.store ≡ some old
      → create c fingerprint_of uuid5 config (some key) w ≡ (
          (reuse c fingerprint_of uuid5 (uuid5 key) (fingerprint_of config) >>= λ _.
          fetch (for_record (uuid5 key) c) >>= λ found. pure found.0)
            (tick c (tick c (tick c w))))
  unfolding create
  create_used config key old w named found =
      bind_ok _ _ w (uuid5 key) w (named_id key w named)
      ∙ bind_ok _ _ w (turn c w) (tick c w) (next_turn_quiet c quiet w)
      ∙ bind_ok _ _ (tick c w) (turn c (tick c w)) (tick c (tick c w))
          (next_turn_quiet c quiet (tick c w))
      ∙ bind_ok _ _ (tick c (tick c w)) false (tick c (tick c (tick c w))) (
          create_existing (fresh_record w config key) old (tick c (tick c w))
            (unfold tick new_record in found))
      ∙ (unfold new_record in refl)

  -- In a quiet environment, a key that is not empty and was used for another request: `create`
  -- raises a conflict and leaves the store and the queue as they were.
  pub create_conflict :
      (config : ExperimentConfig F) (key : String) (old : ExperimentRecord F) (w : World F)
      → str_eq key "" ≡ false
      → lookup (uuid5 key) w.store ≡ some old
      → has_fingerprint (lookup key_name old.result_metadata) (fingerprint_of config) ≡ false
      → let (r, w') = create c fingerprint_of uuid5 config (some key) w in
        (r ≡ err (conflict_error "idempotency key was already used with a different request"))
        × (w'.store ≡ w.store)
        × (w'.calls ≡ w.calls)
  unfolding ◌>>=◌
  create_conflict config key old w named found differs =
      rw (create_used config key old w named found) (
        rw
          (reuse_conflict (uuid5 key) (fingerprint_of config) old (tick c (tick c (tick c w)))
            (unfold tick in found) differs)
          (unfold ◌>>=◌ tick in (refl, refl, refl)))

  -- In a quiet environment, the same request again with its key, which is not empty, for a job that
  -- was dispatched or has ended: `create` returns the record of the first request and stores and sends nothing.
  pub create_again :
      (config : ExperimentConfig F) (key : String) (old : ExperimentRecord F) (w : World F)
      → str_eq key "" ≡ false
      → lookup (uuid5 key) w.store ≡ some old
      → has_fingerprint (lookup key_name old.result_metadata) (fingerprint_of config) ≡ true
      → is_some old.dispatched_at || terminal old.status ≡ true
      → let (r, w') = create c fingerprint_of uuid5 config (some key) w in
        (r ≡ ok old) × (w'.store ≡ w.store) × (w'.calls ≡ w.calls)
  create_again config key old w named found same sent =
      rw
        (create_used config key old w named found
          ∙ bind_ok _ _ _ false _ (
              reuse_dispatched (uuid5 key) (fingerprint_of config) old (tick c (tick c (tick c w)))
                (unfold tick in found) same sent)
          ∙ bind_ok _ _ _ _ _ (
              fetch_quiet (for_record (uuid5 key) c) quiet (tick c (tick c (tick c (tick c w)))) old
                (unfold tick in found)))
        (unfold pure tick in (refl, refl, refl))
