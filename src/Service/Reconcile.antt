-- ===== src/Service/Reconcile.antt =====
-- What one dispatch of `reconcile_pending` does to the store and to the calls.
pub mod Sweep
use azure_ml_optimization_pl.Base.{
  ℕ, ◌+◌, String, str_eq, eq_iff, ◌≡◌, refl, sym, ◌∙◌, ap, subst, Bool, Bool-cases, true, false,
  inl, inr, ◌⊎◌, ◌||◌, not, ◌≢◌, All, Option-cases, Option, none, some, List, [], ◌∷◌, ◌++◌, map,
  arith, Dict, lookup, insert, lookup-insert, lookup-insert_self, if◌then◌else◌,
}
use text.Mathlib.TextPositions.{eq_refl}
use azure_ml_optimization_pl.Double.{Double}
use azure_ml_optimization_pl.Errors.{Result, ok, err}
use azure_ml_optimization_pl.Domain.{ExperimentRecord, terminal}
use azure_ml_optimization_pl.Repository.{Times, Store, prepare}
use azure_ml_optimization_pl.Protocol.{dispatches, change_of, write}
use azure_ml_optimization_pl.Protocol.Record.{is_some}
use azure_ml_optimization_pl.Exec.{pure, ◌>>=◌}
use azure_ml_optimization_pl.Exec.Ensures.{bind_ok}
use azure_ml_optimization_pl.World.{
  World, Context, Call, enqueue, for_record, next_turn, fetch, record_names,
}
use azure_ml_optimization_pl.World.Quiet.{
  IsQuiet, tick, turn, next_turn_quiet, fetch_quiet, record_names_quiet,
}
use azure_ml_optimization_pl.Service.{dispatch, dispatch_each, reconcile_pending}
use azure_ml_optimization_pl.Service.Changes.{mark_dispatched}
use azure_ml_optimization_pl.Service.Outbox.{
  enqueued, is_message, enqueued-append, dispatch_pending, message_of, mark_of,
}

module _ {F : Type 0} where
  abbrev pub is_pending : ExperimentRecord F → Bool
  is_pending r = not (is_some r.dispatched_at || terminal r.status)

  -- Each record is stored under its own name.
  abbrev pub IsKeyed : Store F → Type 0
  IsKeyed s = (id : String) (r : ExperimentRecord F) → lookup id s ≡ some r → r.experiment_id ≡ id

  -- The job of `r` has a message among the calls, and its record is marked.
  pub record Dispatched (r : ExperimentRecord F) (calls : List (Call F)) (s : Store F)
      : Type 0 where
    pub sent : enqueued r calls ≡ true
    pub marked : ExperimentRecord F
    pub stored : lookup r.experiment_id s ≡ some marked
    pub is_marked : is_some marked.dispatched_at ≡ true

  -- A dispatch of the record under `id`, on the calls and the store.
  pub data Dispatch (id : String) (calls : List (Call F)) (s : Store F)
      : List (Call F) → Store F → Type 0 where
    stays :
        (r : ExperimentRecord F)
        → lookup id s ≡ some r
        → is_pending r ≡ false
        → Dispatch id calls s calls s
    goes_out :
        (r marked : ExperimentRecord F) (x : Call F)
        → lookup id s ≡ some r
        → is_message r x ≡ true
        → marked.experiment_id ≡ id
        → is_some marked.dispatched_at ≡ true
        → Dispatch id calls s (calls ++ x ∷ []) (insert id marked s)

  enqueued-more :
      (r : ExperimentRecord F) (xs : List (Call F)) (x : Call F)
      → enqueued r xs ≡ true
      → enqueued r (xs ++ x ∷ []) ≡ true
  enqueued-more r [] x h = cc
  enqueued-more r (y ∷ xs) x h = ground (arith, enqueued-more r xs x)

  insert-IsKeyed :
      (id : String) (r : ExperimentRecord F) (s : Store F)
      → r.experiment_id ≡ id
      → IsKeyed s
      → IsKeyed (insert id r s)
  insert-IsKeyed id r s named keyed j q found =
      ground (arith, eq_iff id j, lookup-insert id j r s, keyed j q)

  pub Dispatch-IsKeyed :
      {id : String} {calls calls' : List (Call F)} {s s' : Store F}
      → Dispatch id calls s calls' s'
      → IsKeyed s
      → IsKeyed s'
  Dispatch-IsKeyed (stays r found done) keyed = keyed
  Dispatch-IsKeyed {id} {s} (goes_out r marked x found message named is_marked) keyed =
      insert-IsKeyed id marked s named keyed

  pub Dispatch-there :
      {id : String} {calls calls' : List (Call F)} {s s' : Store F} (j : String)
      → Dispatch id calls s calls' s'
      → is_some (lookup j s) ≡ true
      → is_some (lookup j s') ≡ true
  Dispatch-there j (stays r found done) there = there
  Dispatch-there {id} {s} j (goes_out r marked x found message named is_marked) there =
      ground (arith, lookup-insert id j marked s)

  pub Dispatch-Dispatched :
      {id : String} {calls calls' : List (Call F)} {s s' : Store F} {q : ExperimentRecord F}
      → Dispatch id calls s calls' s'
      → Dispatched q calls s
      → Dispatched q calls' s'
  Dispatch-Dispatched (stays r found done) d = d
  Dispatch-Dispatched {id} {calls} {s} {q} (goes_out r marked x found message named is_marked) d =
      let sent = enqueued-more q calls x d.sent in
      let at = lookup-insert id q.experiment_id marked s in
      elim (Bool-cases (str_eq id q.experiment_id)) [
        | inl same ↦ record {
          sent = sent;
          marked = marked;
          stored = at ∙ rw same refl;
          is_marked = is_marked;
        }
        | inr apart ↦ record {
          sent = sent;
          marked = d.marked;
          stored = at ∙ rw apart d.stored;
          is_marked = d.is_marked;
        }
      ]

  -- The dispatch of a pending record leads to it.
  pub Dispatch-own :
      (q : ExperimentRecord F) {calls calls' : List (Call F)} {s s' : Store F}
      → Dispatch q.experiment_id calls s calls' s'
      → lookup q.experiment_id s ≡ some q
      → is_pending q ≡ true
      → Dispatched q calls' s'
  Dispatch-own q (stays r found done) here pending = cc (found, done, here, pending)
  Dispatch-own q {calls} {s} (goes_out r marked x found message named is_marked) here pending =
      let same : r ≡ q = cc (found, here) in
      record {
        sent = enqueued-append q calls x (subst (λ y. is_message y x ≡ true) same message);
        marked = marked;
        stored = lookup-insert_self q.experiment_id marked s;
        is_marked = is_marked;
      }

  -- The dispatch of another record leaves it alone.
  pub Dispatch-apart :
      {id : String} {calls calls' : List (Call F)} {s s' : Store F} (j : String)
      → str_eq id j ≡ false
      → Dispatch id calls s calls' s'
      → lookup j s' ≡ lookup j s
  Dispatch-apart j apart (stays r found done) = refl
  Dispatch-apart {id} {s} j apart (goes_out r marked x found message named is_marked) =
      lookup-insert id j marked s ∙ rw apart refl
