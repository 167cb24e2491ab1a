-- ===== src/Repository/Files/Smooth.antt =====
-- The methods of the filesystem repository beside the operations of the store, where every call of
-- the operating system works.
use azure_ml_optimization_pl.Base.{
  String, ◌≡◌, refl, ◌∙◌, Bool, true, false, lookup, Option, none, some, arith,
}
use azure_ml_optimization_pl.Errors.{Error, Result, ok, err}
use azure_ml_optimization_pl.Errors
use azure_ml_optimization_pl.Repository.Files.Methods
use azure_ml_optimization_pl.Domain.{ExperimentRecord}
use azure_ml_optimization_pl.Repository.{Times, Change, Store, or_missing, prepare, save}
use azure_ml_optimization_pl.Repository
use azure_ml_optimization_pl.Repository.Blob.{Codec}
use azure_ml_optimization_pl.World.{Answer, returns, fails_before, fails_after, mutate_under}
use azure_ml_optimization_pl.Repository.Files.{
  Folder, Disk, works, Ending, returned, raised, atomic_write, unlink_temporary, Disked,
}
use azure_ml_optimization_pl.Repository.Files.Methods.{
  Calls, give, folder_or_new, under_lock, state_of, parse_state, read_state, mutate_body, mutate,
  write_new, create_body, create,
}
use azure_ml_optimization_pl.Repository.Files.Effects.{Represents, Agrees, encoded}
use azure_ml_optimization_pl.Repository.Files.Refines.{
  mutate-refines, write_change, prepare_and_write,
}

-- No call fails; `mkstemp` chooses this name.
abbrev pub smooth : String → Calls
smooth name = record {
  at_mkdir = works;
  at_lock = works;
  at_read = works;
  at_close = works;
  writing = record {
    at_parent = works;
    at_mkstemp = works;
    at_write = works;
    at_sync = works;
    at_replace = works;
    at_exists = works;
    at_unlink = works;
    written = "";
    temporary = name;
  };
}

abbrev pub ending_of : {A : Type 0} → Result A → Ending A
ending_of (ok a) = returned a
ending_of (err e) = raised e

save-ending :
    {F : Type 0} (id : String) (s : Store F) (p : Result (ExperimentRecord F))
    → ending_of p ≡ ending_of (save id s p).0
save-ending id s (ok r) = refl
save-ending id s (err e) = refl

unlink_smooth :
    (name : String) (b : Bool) (v : Folder)
    → (unlink_temporary (smooth name).writing b v).0 ≡ returned tt
unfolding unlink_temporary
unlink_smooth name false v = refl
unlink_smooth name true v = refl

atomic_write-smooth :
    (name content : String) (v : Folder)
    → (atomic_write (smooth name).writing content v).0 ≡ returned tt
unfolding atomic_write
atomic_write-smooth name content v = ground arith

under_lock-smooth :
    {A : Type 0} (name id : String) (body : Disked A) (disk : Disk) (p : Result A)
    → (body (folder_or_new (lookup id disk))).0 ≡ ending_of p
    → (under_lock (smooth name) id body disk).0 ≡ ending_of p
unfolding under_lock
under_lock-smooth name id body disk (ok x) h = rw h refl
under_lock-smooth name id body disk (err x) h = rw h refl

module _ {F : Type 0} (json : Codec F) (name : String) where
  module _ (id : String) (change : Change F) (t : Times) where
    prepared_smooth :
        (v : Folder) (p : Result (ExperimentRecord F))
        → (prepare_and_write json (smooth name) id change t p v).0 ≡ ending_of p
    prepared_smooth v (err e) = refl
    prepared_smooth v (ok r) = rw (atomic_write-smooth name (json.encode r) v) refl

    read_smooth :
        (v : Folder) (o : Option (ExperimentRecord F)) (state : Option String)
        → ((r : ExperimentRecord F) → o ≡ some r → json.decode (json.encode r) ≡ ok r)
        → state ≡ encoded json o
        → (Methods.◌>>=◌
            (parse_state json works id state)
            (write_change json (smooth name) id change t)
            v).0
          ≡ ending_of (Errors.◌>>=◌ (or_missing id o) (prepare change t))
    unfolding parse_state
    read_smooth v none state h e = rw e refl
    read_smooth v (some r) state h e = rw (e, h r refl) (prepared_smooth v (prepare change t r))

    -- The ending of a call that did not fail, with the store that it left.
    settled :
        (s : Store F) (p : Result (ExperimentRecord F)) (disk' : Disk) (a : Answer)
        → Repository.mutate id change t s ≡ save id s p
        → Agrees json (ending_of p) (mutate_under a id change t s).0
        → Represents json disk' (mutate_under a id change t s).1
        → Represents json disk' (Repository.mutate id change t s).1
    unfolding mutate_under
    settled s p disk' returns e agrees h = h
    settled s p disk' (fails_after x) e agrees h = h
    settled s (ok r) disk' (fails_before x) e agrees h = cc
    settled s (err y) disk' (fails_before x) e agrees h = rw e h

    pub mutate-smooth :
        (disk : Disk) (s : Store F)
        → Represents json disk s
        → ((r : ExperimentRecord F) → lookup id s ≡ some r → json.decode (json.encode r) ≡ ok r)
        → let (q, disk') = mutate json (smooth name) id change t disk in
          let (p, s') = Repository.mutate id change t s in
          (q ≡ ending_of p) × Represents json disk' s'
    unfolding mutate mutate_body read_state Repository.mutate Repository.get
    mutate-smooth disk s h readable =
        let p = Errors.◌>>=◌ (or_missing id (lookup id s)) (prepare change t) in
        let e =
          under_lock-smooth name id (mutate_body json (smooth name) id change t) disk p
            (read_smooth _ (lookup id s) _ readable (h.at id)) in
        let (a, agrees, represents) =
          mutate-refines json (smooth name) id change t disk s h readable in
        (e ∙ save-ending id s p, settled s p _ a refl (rw (← e) agrees) represents)
