-- ===== src/Repository/Files.antt =====
-- `FilesystemExperimentRepository` of repositories.py. `flock` makes the operations on one record
-- follow one another; each call of the operating system may fail, and the process may be killed at
-- it. The JSON of a record is a parameter.
pub mod Atomic
pub mod Effects
pub mod Methods
pub mod Refines
pub mod Smooth
use Prim.Native.String.{◌++◌}
use azure_ml_optimization_pl.Base.{
  String, Bool, true, false, Dict, lookup, insert, Option, none, some, List, [], ◌∷◌, str_eq,
  if◌then◌else◌,
}
use azure_ml_optimization_pl.Errors.{Error, Result, ok, err, conflict_error, ◌>>=◌}
use azure_ml_optimization_pl.Domain.{ExperimentRecord}
use azure_ml_optimization_pl.Repository.{Times, Change, missing, prepare}
use azure_ml_optimization_pl.Repository.Blob.{Codec}
use azure_ml_optimization_pl.Protocol.Record.{is_some}

-- The folder of an experiment: the content of `state.json`, and the other files but the lock.
pub record Folder : Type 0 where
  pub state : Option String
  pub temporaries : Dict String

abbrev pub new_folder : Folder
new_folder = record { state = none; temporaries = [] }

-- The folders below the root, by the experiment's name.
abbrev pub Disk : Type 0
Disk = Dict Folder

-- How a call of the operating system goes.
pub data Event : Type 0 where
  works : Event
  raises : Error → Event
  kills : Event

-- How a method ends: a killed process runs no `finally`.
pub data Ending {ℓ} (A : Type ℓ) : Type ℓ where
  returned : A → Ending A
  raised : Error → Ending A
  killed : Ending A

-- What the calls of one `_atomic_write` do, and what part of the content is in the file where
-- the write does not end.
pub record Faults : Type 0 where
  pub at_parent : Event
  pub at_mkstemp : Event
  pub at_write : Event
  pub at_sync : Event
  pub at_replace : Event
  pub at_exists : Event
  pub at_unlink : Event
  pub written : String
  -- The name that `mkstemp` chooses.
  pub temporary : String

-- A method on a folder.
abbrev pub Disked : Type 0 → Type 0
Disked A = Folder → Ending A × Folder

module _ {A B : Type 0} where
  abbrev pub after_ending : Ending A → (A → Disked B) → Disked B
  after_ending (returned a) f v = f a v
  after_ending (raised e) f v = (raised e, v)
  after_ending killed f v = (killed, v)

  infixl 10 ◌>>>◌
  abbrev pub ◌>>>◌ : Disked A → Disked B → Disked B
  ◌>>>◌ m n v = let (r, v') = m v in after_ending r (λ a. n) v'

-- A call that does `f` where it works, and leaves `g` behind where it does not.
abbrev pub system : Event → (f g : Folder → Folder) → Disked (Unit {0})
system works f g v = (returned tt, f v)
system (raises e) f g v = (raised e, g v)
system kills f g v = (killed, g v)

-- `try: m` with `finally: n`: an exception of `n` takes the place of the ending of `m`.
abbrev pub cleaned : {A : Type 0} → Ending A → Ending (Unit {0}) × Folder → Ending A × Folder
cleaned r (returned u, v) = (r, v)
cleaned r (raised e, v) = (raised e, v)
cleaned r (killed, v) = (killed, v)

abbrev pub finally_do : {A : Type 0} → Ending A → Disked (Unit {0}) → Disked A
finally_do killed n v = (killed, v)
finally_do r n v = cleaned r (n v)

-- A file taken out of a folder.
unfoldable pub erase : {V : Type 0} → String → Dict V → Dict V
erase k [] = []
erase k ((j, v) ∷ d) = let rest = erase k d in if str_eq j k then rest else (j, v) ∷ rest

abbrev pub put_temporary : String → String → Folder → Folder
put_temporary name content v = record v { temporaries = insert name content v.temporaries }

abbrev pub moved : Option String → Folder → Folder
moved none v = v
moved (some content) v = record v { state = some content }

abbrev unchanged : Folder → Folder
unchanged v = v

module _ (faults : Faults) where
  open faults use {
    at_parent, at_mkstemp, at_write, at_sync, at_replace, at_exists, at_unlink, written, temporary,
  }

  -- `path.parent.mkdir` and `tempfile.mkstemp`
  make_temporary : Disked (Unit {0})
  make_temporary =
      system at_parent unchanged unchanged
      >>> system at_mkstemp (put_temporary temporary "") unchanged

  write_temporary : String → Disked (Unit {0})
  write_temporary content =
      system at_write (put_temporary temporary content) (put_temporary temporary written)

  sync_temporary : Disked (Unit {0})
  sync_temporary = system at_sync unchanged unchanged

  -- `os.replace(temporary, path)`
  replace_state : Disked (Unit {0})
  replace_state =
      system at_replace
        (λ v. record (moved (lookup temporary v.temporaries) v) {
          temporaries = erase temporary v.temporaries;
        })
        unchanged

  -- `if os.path.exists(temporary): os.unlink(temporary)`
  unlink_temporary : Bool → Disked (Unit {0})
  unlink_temporary false v = (returned tt, v)
  unlink_temporary true v =
      system at_unlink (λ u. record u { temporaries = erase temporary u.temporaries }) unchanged v

  remove_temporary : Disked (Unit {0})
  remove_temporary v =
      (system at_exists unchanged unchanged
          >>> unlink_temporary (is_some (lookup temporary v.temporaries)))
        v

  -- The block of the `try` statement.
  fill : String → Disked (Unit {0})
  fill content = write_temporary content >>> sync_temporary >>> replace_state

  fill_and_clean : String → Disked (Unit {0})
  fill_and_clean content v = let (r, u) = fill content v in finally_do r remove_temporary u

  unfoldable pub atomic_write : String → Disked (Unit {0})
  unfolding make_temporary write_temporary sync_temporary replace_state unlink_temporary
      remove_temporary fill fill_and_clean
  atomic_write content = make_temporary >>> fill_and_clean content
