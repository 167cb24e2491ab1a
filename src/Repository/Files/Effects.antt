-- ===== src/Repository/Files/Effects.antt =====
-- What a method under the lock does to the disk, and the operation of the store that does the same
-- when it returns, fails before or fails after it took effect.
use azure_ml_optimization_pl.Base.{
  String, str_eq, eq_iff, ◌≡◌, refl, inl, inr, ◌⊎◌, lookup, insert, lookup-insert, Option, none,
  some, arith, if◌then◌else◌,
}
use azure_ml_optimization_pl.Errors.{Error, Result, ok, err, other}
use azure_ml_optimization_pl.Domain.{ExperimentRecord}
use azure_ml_optimization_pl.Repository.{Store}
use azure_ml_optimization_pl.Repository.Blob.{Codec}
use azure_ml_optimization_pl.World.{Answer, returns, fails_before, fails_after}
use azure_ml_optimization_pl.Repository.Files.{
  Folder, Disk, Event, works, raises, kills, Ending, returned, raised, killed, Disked, system,
  finally_do,
}
use azure_ml_optimization_pl.Repository.Files.Methods.{Calls, folder_or_new, under_lock, state_of}

module _ {F : Type 0} (json : Codec F) where
  abbrev pub encoded : Option (ExperimentRecord F) → Option String
  encoded none = none
  encoded (some r) = some (json.encode r)

  -- The disk has the state of every record of the store, and no other.
  pub record Represents (disk : Disk) (s : Store F) : Type 0 where
    pub at : (id : String) → state_of id disk ≡ encoded (lookup id s)

  -- A killed process sees no result.
  abbrev pub Agrees : {A : Type 0} → Ending A → Result A → Type 0
  Agrees (returned a) r = r ≡ ok a
  Agrees (raised e) r = r ≡ err e
  Agrees killed r = Unit

-- What a method would return and store, or the exception that it would raise.
abbrev pub Intent : Type 0 → Type 0 → Type 0
Intent F A = Result (A × ExperimentRecord F)

-- A disk on which the folder of `id` is replaced.
abbrev pub Replaced : String → Disk → Folder → Disk → Type 0
Replaced id disk w disk' =
    (j : String) → state_of j disk' ≡ (if str_eq id j then w.state else state_of j disk)

insert-Replaced : (id : String) (disk : Disk) (w : Folder) → Replaced id disk w (insert id w disk)
insert-Replaced id disk w j = ground (arith, lookup-insert id j w disk)

same-Replaced : (id : String) (disk : Disk) → Replaced id disk (folder_or_new (lookup id disk)) disk
same-Replaced id disk j = ground (arith, eq_iff id j)

Event-cases : (e : Event) → (e ≡ works) ⊎ ((x : Error) × (e ≡ raises x)) ⊎ (e ≡ kills)
Event-cases works = inl refl
Event-cases (raises x) = inr (inl (x, refl))
Event-cases kills = inr (inr refl)

module _ {F : Type 0} (json : Codec F) where
  kept-Represents :
      (id : String) (disk disk' : Disk) (w : Folder) (s : Store F)
      → Represents json disk s
      → Replaced id disk w disk'
      → w.state ≡ state_of id disk
      → Represents json disk' s
  kept-Represents id disk disk' w s h k e = record {
    at = λ j. ground (arith, k j, h.at j, eq_iff id j);
  }

  wrote-Represents :
      (id : String) (disk disk' : Disk) (w : Folder) (s : Store F) (r : ExperimentRecord F)
      → Represents json disk s
      → Replaced id disk w disk'
      → w.state ≡ some (json.encode r)
      → Represents json disk' (insert id r s)
  wrote-Represents id disk disk' w s r h k e = record {
    at = λ j. ground (arith, k j, h.at j, lookup-insert id j r s);
  }

module _ {F A : Type 0} (json : Codec F) where
  abbrev pub Wrote : Intent F A → Folder → Type 0
  Wrote p u =
      (x : A) × (r : ExperimentRecord F) × (p ≡ ok (x, r)) × (u.state ≡ some (json.encode r))

  -- From the folder `v`, a method that returns has stored what it meant to; one that does not has
  -- stored it or nothing.
  abbrev pub Stored : Intent F A → Folder → Ending A → Folder → Type 0
  Stored p v (returned x) u =
      (r : ExperimentRecord F) × (p ≡ ok (x, r)) × (u.state ≡ some (json.encode r))
  Stored p v (raised e) u = (u.state ≡ v.state) ⊎ Wrote p u
  Stored p v killed u = (u.state ≡ v.state) ⊎ Wrote p u

  closed-Stored :
      (p : Intent F A) (v u : Folder) (r : Ending A) (e : Event)
      → Stored p v r u
      → let (q, w) = finally_do r (system e (λ x. x) (λ x. x)) u in Stored p v q w
  closed-Stored p v u (returned x) works h = h
  closed-Stored p v u (returned x) (raises e) (r, a, b) = inr (x, r, a, b)
  closed-Stored p v u (returned x) kills (r, a, b) = inr (x, r, a, b)
  closed-Stored p v u (raised e) works h = h
  closed-Stored p v u (raised e) (raises e') h = h
  closed-Stored p v u (raised e) kills h = h
  closed-Stored p v u killed e h = h

  pub under_lock-Stored :
      (calls : Calls) (id : String) (body : Disked A) (p : Intent F A) (disk : Disk)
      → ((v : Folder) → v ≡ folder_or_new (lookup id disk) → Stored p v (body v).0 (body v).1)
      → let (q, disk') = under_lock calls id body disk in
        (w : Folder) × Stored p (folder_or_new (lookup id disk)) q w × Replaced id disk w disk'
  unfolding under_lock
  under_lock-Stored calls id body p disk h =
      let v = folder_or_new (lookup id disk) in
      let (r, u) = body v in
      let (q, w) = finally_do r (system calls.at_close (λ x. x) (λ x. x)) u in
      elim (Event-cases calls.at_mkdir) [
        | inr (inl (e, at_mkdir)) ↦ rw (at_mkdir, under_lock) (v, inl refl, same-Replaced id disk)
        | inr (inr at_mkdir) ↦ rw (at_mkdir, under_lock) (v, inl refl, same-Replaced id disk)
        | inl at_mkdir ↦ elim (Event-cases calls.at_lock) [
          | inr (inl (e, at_lock)) ↦
              rw (at_mkdir, at_lock, under_lock) (v, inl refl, insert-Replaced id disk v)
          | inr (inr at_lock) ↦
              rw (at_mkdir, at_lock, under_lock) (v, inl refl, insert-Replaced id disk v)
          | inl at_lock ↦
              rw (at_mkdir, at_lock, under_lock)
                (w, closed-Stored p v u r calls.at_close (h v refl), insert-Replaced id disk w)
        ]
      ]

  -- The store's operation with this intent, and the same under failures.
  abbrev pub commit : String → Intent F A → Store F → Result A × Store F
  commit id (ok (x, r)) s = (ok x, insert id r s)
  commit id (err e) s = (err e, s)

  abbrev pub commit_under : Answer → String → Intent F A → Store F → Result A × Store F
  commit_under returns id p s = commit id p s
  commit_under (fails_before e) id p s = (err e, s)
  commit_under (fails_after e) id p s = (err e, (commit id p s).1)

  abbrev pub Refined : String → Intent F A → Store F → Ending A → Disk → Type 0
  Refined id p s q disk =
      (a : Answer) × Agrees json q (commit_under a id p s).0
      × Represents json disk (commit_under a id p s).1

  pub refined :
      (id : String) (p : Intent F A) (disk disk' : Disk) (w : Folder) (s : Store F) (q : Ending A)
      → Represents json disk s
      → Replaced id disk w disk'
      → Stored p (folder_or_new (lookup id disk)) q w
      → Refined id p s q disk'
  refined id p disk disk' w s (returned x) h k (r, e, stored) =
      (returns, rw e refl, rw e (wrote-Represents json id disk disk' w s r h k stored))
  refined id p disk disk' w s (raised e) h k (inl same) =
      (fails_before e, refl, kept-Represents json id disk disk' w s h k same)
  refined id p disk disk' w s (raised e) h k (inr (x, r, f, stored)) =
      (fails_after e, refl, rw f (wrote-Represents json id disk disk' w s r h k stored))
  refined id p disk disk' w s killed h k (inl same) =
      (fails_before (other "killed"), tt, kept-Represents json id disk disk' w s h k same)
  refined id p disk disk' w s killed h k (inr (x, r, f, stored)) = (
    fails_after (other "killed"),
    tt,
    rw f (wrote-Represents json id disk disk' w s r h k stored),
  )
