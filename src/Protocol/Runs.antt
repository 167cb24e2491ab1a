-- ===== src/Protocol/Runs.antt =====
-- Whole stores under any interleaving of submissions and writes.
use azure_ml_optimization_pl.Base.{
  String, str_eq, eq_iff, ◌≡◌, ◌∙◌, ap, inl, inr, Option-cases, true, lookup, insert, lookup-insert,
  none, some, List, [], ◌∷◌, arith, if◌then◌else◌, Bool-cases,
}
use azure_ml_optimization_pl.Double.{Double}
use azure_ml_optimization_pl.Errors.{Result, ok, err}
use azure_ml_optimization_pl.Domain.{terminal, ExperimentRecord}
use azure_ml_optimization_pl.Repository.{Times, Store, prepare, get, mutate, create, save}
use azure_ml_optimization_pl.Protocol.{
  Update, Act, submits, mutates, change_of, after, write, perform, run,
}
use azure_ml_optimization_pl.Protocol.Record.{IsSound, write-IsSound, new_record-IsSound}
use azure_ml_optimization_pl.Protocol.Lease.{outcome, write-outcome}

module _ {F : Type 0} ⦃d : Double F⦄ where
  -- A mutation of a record that is there is a write of that record; another record stays.
  lookup-save :
      (id j : String) (r : ExperimentRecord F) (q : Result (ExperimentRecord F)) (s : Store F)
      → lookup id s ≡ some r
      → lookup j (save id s q).1 ≡ (if str_eq id j then some (after r q) else lookup j s)
  lookup-save id j r (ok r') s h = lookup-insert id j r' s
  lookup-save id j r (err e) s h = ground (arith, eq_iff id j)

  lookup-mutate :
      (id j : String) (t : Times) (u : Update F) (r : ExperimentRecord F) (s : Store F)
      → lookup id s ≡ some r
      → lookup j (perform (t, mutates id u) s)
        ≡ (if str_eq id j then some (write (t, u) r) else lookup j s)
  unfolding perform mutate get write
  lookup-mutate id j t u r s h =
      rw (h, perform) (lookup-save id j r (prepare (change_of u) t r) s h)

  mutate-missing :
      (id : String) (t : Times) (u : Update F) (s : Store F)
      → lookup id s ≡ none
      → perform (t, mutates id u) s ≡ s
  unfolding perform mutate get
  mutate-missing id t u s h = rw (h, perform)

  create-present :
      (r old : ExperimentRecord F) (s : Store F)
      → lookup r.experiment_id s ≡ some old
      → (create r s).1 ≡ s
  unfolding create
  create-present r old s h = rw (h, create)

  create-absent :
      (r : ExperimentRecord F) (s : Store F)
      → lookup r.experiment_id s ≡ none
      → (create r s).1 ≡ insert r.experiment_id r s
  unfolding create
  create-absent r s h = rw (h, create)

  -- Every record of the store is sound.
  pub record IsSoundStore (s : Store F) : Type 0 where
    pub at : (id : String) (r : ExperimentRecord F) → lookup id s ≡ some r → IsSound r

  create-IsSoundStore :
      (r : ExperimentRecord F) (s : Store F)
      → IsSound r
      → IsSoundStore s
      → IsSoundStore (create r s).1
  create-IsSoundStore r s sound v = elim (Option-cases (lookup r.experiment_id s)) [
    | inl absent ↦
        rw (create-absent r s absent)
          record { at = λ j x h. ground (arith, lookup-insert r.experiment_id j r s, v.at j x) }
    | inr (old, found) ↦ rw (create-present r old s found) v
  ]

  perform-IsSoundStore :
      (a : Times × Act F) (s : Store F) → IsSoundStore s → IsSoundStore (perform a s)
  perform-IsSoundStore (t, submits c q u id job config metadata) s v =
      unfold perform in
      create-IsSoundStore _ s (new_record-IsSound (d.literal 0 0) c q u id job config metadata) v
  perform-IsSoundStore (t, mutates id u) s v = elim (Option-cases (lookup id s)) [
    | inl absent ↦ rw (mutate-missing id t u s absent) v
    | inr (r, found) ↦ record {
      at = λ j x h. ground (
        arith,
        eq_iff id j,
        lookup-mutate id j t u r s found,
        v.at j x,
        write-IsSound t u r,
        v.at id r found,
      );
    }
  ]

  -- From a store whose records are sound, every interleaving of submissions and writes, by any
  -- number of services and workers, leads to one whose records are sound.
  pub run-IsSoundStore :
      (acts : List (Times × Act F)) (s : Store F) → IsSoundStore s → IsSoundStore (run acts s)
  unfolding run
  run-IsSoundStore [] s v = v
  run-IsSoundStore (a ∷ acts) s v = run-IsSoundStore acts (perform a s) (perform-IsSoundStore a s v)

  pub empty-IsSoundStore : IsSoundStore []
  unfolding lookup
  empty-IsSoundStore = record { at = λ id r h. cc }

  -- A job whose outcome is fixed.
  abbrev pub HasEnded : String → ExperimentRecord F → Store F → Type 0
  HasEnded id r s =
      (x : ExperimentRecord F) × (lookup id s ≡ some x)
      × (outcome x ≡ outcome r)
      × (terminal x.status ≡ true)

  insert-HasEnded :
      (id j : String) (r new : ExperimentRecord F) (s : Store F)
      → lookup j s ≡ none
      → HasEnded id r s
      → HasEnded id r (insert j new s)
  insert-HasEnded id j r new s absent (x, found, same, over) =
      (x, ground (arith, lookup-insert j id new s, eq_iff j id), same, over)

  create-HasEnded :
      (id : String) (r new : ExperimentRecord F) (s : Store F)
      → HasEnded id r s
      → HasEnded id r (create new s).1
  create-HasEnded id r new s e = elim (Option-cases (lookup new.experiment_id s)) [
    | inl absent ↦ rw (create-absent new s absent) (insert-HasEnded id _ r new s absent e)
    | inr (old, found) ↦ rw (create-present new old s found) e
  ]

  mutate-HasEnded :
      (id j : String) (r : ExperimentRecord F) (t : Times) (u : Update F) (s : Store F)
      → HasEnded id r s
      → HasEnded id r (perform (t, mutates j u) s)
  mutate-HasEnded id j r t u s (x, found, same, over) = elim (Option-cases (lookup j s)) [
    | inl absent ↦ rw (mutate-missing j t u s absent) (x, found, same, over)
    | inr (y, there) ↦ elim (Bool-cases (str_eq j id)) [
      | inl hit ↦
          let e : lookup j s ≡ some x = cc ((eq_iff j id).0 hit) in
          let kept = write-outcome t u x over in
          (
            write (t, u) x,
            ground (arith, lookup-mutate j id t u x s e),
            kept ∙ same,
            ap (λ (z : ExperimentRecord F). terminal z.status) kept ∙ over,
          )
      | inr miss ↦ (x, ground (arith, lookup-mutate j id t u y s there), same, over)
    ]
  ]

  pub perform-HasEnded :
      (id : String) (r : ExperimentRecord F) (a : Times × Act F) (s : Store F)
      → HasEnded id r s
      → HasEnded id r (perform a s)
  perform-HasEnded id r (t, submits c q u j job config metadata) s e =
      unfold perform in create-HasEnded id r _ s e
  perform-HasEnded id r (t, mutates j u) s e = mutate-HasEnded id j r t u s e

  -- A job that has ended is there, with the same outcome, after every interleaving of submissions
  -- and writes: no redelivery, late worker, cancellation or repeated submission changes it.
  pub run-HasEnded :
      (id : String) (r : ExperimentRecord F) (acts : List (Times × Act F)) (s : Store F)
      → HasEnded id r s
      → HasEnded id r (run acts s)
  unfolding run
  run-HasEnded id r [] s e = e
  run-HasEnded id r (a ∷ acts) s e =
      run-HasEnded id r acts (perform a s) (perform-HasEnded id r a s e)
