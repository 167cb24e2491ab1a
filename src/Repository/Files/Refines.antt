-- ===== src/Repository/Files/Refines.antt =====
-- The filesystem repository beside the store of records: `create` and `mutate` under any failures.
use Prim.Native.String.{◌++◌}
use azure_ml_optimization_pl.Base.{String, ◌≡◌, refl, ap, inl, inr, lookup, Option, none, some}
use azure_ml_optimization_pl.Errors.{Error, Result, ok, err, other, Result-cases, conflict_error}
use azure_ml_optimization_pl.Domain.{ExperimentRecord}
use azure_ml_optimization_pl.Repository.{Times, Change, Store, missing, or_missing, prepare, save}
use azure_ml_optimization_pl.Repository
use azure_ml_optimization_pl.Errors
use azure_ml_optimization_pl.Repository.Blob.{Codec}
use azure_ml_optimization_pl.World.{
  Answer, returns, fails_before, fails_after, mutate_under, create_under,
}
use azure_ml_optimization_pl.Repository.Files.{
  Folder, Disk, Event, works, raises, kills, Ending, returned, raised, killed, Disked, after_ending,
  atomic_write,
}
use azure_ml_optimization_pl.Repository.Files.Atomic.{IsAtomic, atomic_write-IsAtomic}
use azure_ml_optimization_pl.Repository.Files.Methods.{
  Calls, give, read_state, mutate_body, mutate, create_body, create, ◌>>=◌, parse_state, write_new,
}
use azure_ml_optimization_pl.Repository.Files.Effects.{
  encoded, Represents, Agrees, Intent, Stored, under_lock-Stored, commit, commit_under, refined,
}

-- The intent of a mutation: it returns what it stores.
abbrev pub both : {F : Type 0} → Result (ExperimentRecord F) → Intent F (ExperimentRecord F)
both (ok r) = ok (r, r)
both (err e) = err e

both-save :
    {F : Type 0} (json : Codec F) (id : String) (p : Result (ExperimentRecord F)) (s : Store F)
    → commit json id (both p) s ≡ save id s p
both-save json id (ok r) s = refl
both-save json id (err e) s = refl

module _ {F : Type 0} (json : Codec F) (calls : Calls) where
  written-Stored :
      {A : Type 0} (x : A) (r : ExperimentRecord F) (v u : Folder) (q : Ending (Unit {0}))
      → IsAtomic (json.encode r) calls.writing.temporary v q u
      → let (e, w) = after_ending q (λ y. give (ok x)) u in Stored json (ok (x, r)) v e w
  written-Stored x r v u (returned y) h = (r, refl, h.done refl)
  written-Stored x r v u (raised e) h = elim h.whole [ inl a ↦ inl a | inr b ↦ inr (x, r, refl, b) ]
  written-Stored x r v u killed h = elim h.whole [ inl a ↦ inl a | inr b ↦ inr (x, r, refl, b) ]

  module _ (id : String) (change : Change F) (t : Times) where
    -- The part of `mutate` behind the read.
    abbrev pub write_change : ExperimentRecord F → Disked (ExperimentRecord F)
    write_change current v =
        (give (prepare change t current) >>= λ updated.
        atomic_write calls.writing (json.encode updated) >>= λ u. give (ok updated))
          v

    abbrev pub prepare_and_write : Result (ExperimentRecord F) → Disked (ExperimentRecord F)
    prepare_and_write p v =
        (give p >>= λ updated.
        atomic_write calls.writing (json.encode updated) >>= λ u. give (ok updated))
          v

    prepared-Stored :
        (v : Folder) (p : Result (ExperimentRecord F))
        → let (e, w) = prepare_and_write p v in Stored json (both p) v e w
    prepared-Stored v (err e) = inl refl
    prepared-Stored v (ok r) =
        written-Stored r r v _ _ (atomic_write-IsAtomic calls.writing (json.encode r) v)

    Readable : Option (ExperimentRecord F) → Type 0
    Readable o = (r : ExperimentRecord F) → o ≡ some r → json.decode (json.encode r) ≡ ok r

    parsed-Stored :
        (v : Folder) (e : Event) (o : Option (ExperimentRecord F))
        → Readable o
        → let (q, w) = (parse_state json e id (encoded json o) >>= write_change) v in
          Stored json (both (Errors.◌>>=◌ (or_missing id o) (prepare change t))) v q w
    unfolding parse_state Readable
    parsed-Stored v e none h = inl refl
    parsed-Stored v works (some r) h = rw (h r refl) (prepared-Stored v (prepare change t r))
    parsed-Stored v (raises x) (some r) h = inl refl
    parsed-Stored v kills (some r) h = inl refl

    read-Stored :
        (v : Folder) (o : Option (ExperimentRecord F)) (state : Option String)
        → Readable o
        → state ≡ encoded json o
        → let (q, w) = (parse_state json calls.at_read id state >>= write_change) v in
          Stored json (both (Errors.◌>>=◌ (or_missing id o) (prepare change t))) v q w
    read-Stored v o state h e = rw e (parsed-Stored v calls.at_read o h)

    committed :
        (a : Answer) (s : Store F)
        → commit_under json a id
            (both (Errors.◌>>=◌ (or_missing id (lookup id s)) (prepare change t)))
            s
          ≡ mutate_under a id change t s
    unfolding Repository.mutate Repository.get mutate_under
    committed returns s = both-save json id _ s
    committed (fails_before e) s = refl
    committed (fails_after e) s = ap (λ x. (err e, x.1)) (both-save json id _ s)

    -- `mutate` of the filesystem repository, whatever fails and wherever the process is killed.
    pub mutate-refines :
        (disk : Disk) (s : Store F)
        → Represents json disk s
        → ((r : ExperimentRecord F) → lookup id s ≡ some r → json.decode (json.encode r) ≡ ok r)
        → let (q, disk') = mutate json calls id change t disk in
          (a : Answer) × Agrees json q (mutate_under a id change t s).0
          × Represents json disk' (mutate_under a id change t s).1
    unfolding mutate mutate_body read_state Readable
    mutate-refines disk s h readable =
        let p = both (Errors.◌>>=◌ (or_missing id (lookup id s)) (prepare change t)) in
        let (w, stored, replaced) =
          under_lock-Stored json calls id (mutate_body json calls id change t) p disk
            (λ v e. read-Stored v (lookup id s) v.state readable (rw e (h.at id))) in
        let (a, agrees, represents) = refined json id p disk _ w s _ h replaced stored in
        let e = committed a s in (a, rw (← e) agrees, rw (← e) represents)

  made-Stored :
      (r : ExperimentRecord F) (v u : Folder) (q : Ending (Unit {0}))
      → IsAtomic (json.encode r) calls.writing.temporary v q u
      → Stored json (ok (tt, r)) v q u
  made-Stored r v u (returned y) h = (r, refl, h.done refl)
  made-Stored r v u (raised e) h = elim h.whole [ inl a ↦ inl a | inr b ↦ inr (tt, r, refl, b) ]
  made-Stored r v u killed h = elim h.whole [ inl a ↦ inl a | inr b ↦ inr (tt, r, refl, b) ]

  -- The intent of `create`.
  abbrev pub new_only : ExperimentRecord F → Option (ExperimentRecord F) → Intent F (Unit {0})
  new_only r none = ok (tt, r)
  new_only r (some old) =
      err (conflict_error ("experiment " ++ r.experiment_id ++ " already exists"))

  new-Stored :
      (v : Folder) (r : ExperimentRecord F) (o : Option (ExperimentRecord F))
      → let (q, w) = write_new json calls r (encoded json o) v in Stored json (new_only r o) v q w
  unfolding write_new
  new-Stored v r none = made-Stored r v _ _ (atomic_write-IsAtomic calls.writing (json.encode r) v)
  new-Stored v r (some old) = inl refl

  created_under :
      (a : Answer) (r : ExperimentRecord F) (o : Option (ExperimentRecord F)) (s : Store F)
      → lookup r.experiment_id s ≡ o
      → commit_under json a r.experiment_id (new_only r o) s ≡ create_under a r s
  unfolding create_under Repository.create
  created_under returns r none s e = rw e refl
  created_under returns r (some old) s e = rw e refl
  created_under (fails_before x) r o s e = refl
  created_under (fails_after x) r none s e = rw e refl
  created_under (fails_after x) r (some old) s e = rw e refl

  new_state-Stored :
      (r : ExperimentRecord F) (v : Folder) (o : Option (ExperimentRecord F))
      → (state : Option String) → state ≡ encoded json o
      → let (q, w) = write_new json calls r state v in Stored json (new_only r o) v q w
  new_state-Stored r v o state e = rw e (new-Stored v r o)

  pub create-refines :
      (r : ExperimentRecord F) (disk : Disk) (s : Store F)
      → Represents json disk s
      → let (q, disk') = create json calls r disk in
        (a : Answer) × Agrees json q (create_under a r s).0
        × Represents json disk' (create_under a r s).1
  unfolding create create_body
  create-refines r disk s h =
      let p = new_only r (lookup r.experiment_id s) in
      let (w, stored, replaced) =
        under_lock-Stored json calls r.experiment_id (create_body json calls r) p disk (λ v e.
          new_state-Stored r v (lookup r.experiment_id s) v.state (rw e (h.at r.experiment_id))) in
      let (a, agrees, represents) = refined json r.experiment_id p disk _ w s _ h replaced stored in
      let e = created_under a r (lookup r.experiment_id s) s refl in
      (a, rw (← e) agrees, rw (← e) represents)
