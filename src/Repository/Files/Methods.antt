-- ===== src/Repository/Files/Methods.antt =====
-- The methods of `FilesystemExperimentRepository`, under the lock of the record's folder.
use Prim.Native.String.{◌++◌}
use azure_ml_optimization_pl.Base.{String, Bool, true, false, lookup, insert, Option, none, some}
use azure_ml_optimization_pl.Errors.{Result, ok, err, other, conflict_error}
use azure_ml_optimization_pl.Domain.{ExperimentRecord}
use azure_ml_optimization_pl.Repository.{Times, Change, missing, prepare}
use azure_ml_optimization_pl.Repository.Blob.{Codec}
use azure_ml_optimization_pl.Repository.Files.{
  Folder, new_folder, Disk, Event, works, raises, kills, Ending, returned, raised, killed, Faults,
  Disked, after_ending, system, finally_do, atomic_write,
}

-- The calls of one method: `mkdir`, the opening of the lock file with `flock`, the read of the
-- state, the write, and the close of the lock file.
pub record Calls : Type 0 where
  pub at_mkdir : Event
  pub at_lock : Event
  pub at_read : Event
  pub at_close : Event
  pub writing : Faults

module _ {A B : Type 0} where
  infixl 10 ◌>>=◌
  abbrev pub ◌>>=◌ : Disked A → (A → Disked B) → Disked B
  ◌>>=◌ m f v = let (r, u) = m v in after_ending r f u

abbrev pub give : {A : Type 0} → Result A → Disked A
give (ok a) v = (returned a, v)
give (err e) v = (raised e, v)

-- The folder of a record, where there is one.
abbrev pub folder_or_new : Option Folder → Folder
folder_or_new none = new_folder
folder_or_new (some v) = v

-- `_locked` and the `try` statement behind it, whose `finally` closes the lock file.
unfoldable pub under_lock : {A : Type 0} → Calls → String → Disked A → Disk → Ending A × Disk
under_lock calls id body disk =
    let v = folder_or_new (lookup id disk) in
    elim calls.at_mkdir [
      | raises e ↦ (raised e, disk)
      | kills ↦ (killed, disk)
      | works ↦ elim calls.at_lock [
        | raises e ↦ (raised e, insert id v disk)
        | kills ↦ (killed, insert id v disk)
        | works ↦
            let (r, u) = body v in
            let (q, w) = finally_do r (system calls.at_close (λ x. x) (λ x. x)) u in
            (q, insert id w disk)
      ]
    ]

abbrev pub state_of : String → Disk → Option String
state_of id disk = (folder_or_new (lookup id disk)).state

module _ {F : Type 0} (json : Codec F) where
  unfoldable pub parse_state : Event → String → Option String → Disked (ExperimentRecord F)
  parse_state e id none v = (raised (missing id), v)
  parse_state e id (some content) v =
      (system e (λ x. x) (λ x. x) >>= λ u. give (json.decode content)) v

module _ {F : Type 0} (json : Codec F) (calls : Calls) where
  unfoldable pub read_state : String → Disked (ExperimentRecord F)
  unfolding parse_state
  read_state id v = parse_state json calls.at_read id v.state v

  unfoldable pub mutate_body : String → Change F → Times → Disked (ExperimentRecord F)
  mutate_body id change t = read_state id >>= λ current.
      give (prepare change t current) >>= λ updated.
      atomic_write calls.writing (json.encode updated) >>= λ u. give (ok updated)

  unfoldable pub mutate : String → Change F → Times → Disk → Ending (ExperimentRecord F) × Disk
  mutate id change t disk = under_lock calls id (mutate_body id change t) disk

  unfoldable pub write_new : ExperimentRecord F → Option String → Disked (Unit {0})
  write_new r (some content) v =
      (raised (conflict_error ("experiment " ++ r.experiment_id ++ " already exists")), v)
  write_new r none v = atomic_write calls.writing (json.encode r) v

  unfoldable pub create_body : ExperimentRecord F → Disked (Unit {0})
  unfolding write_new
  create_body r v = write_new r v.state v

  unfoldable pub create : ExperimentRecord F → Disk → Ending (Unit {0}) × Disk
  create r disk = under_lock calls r.experiment_id (create_body r) disk

  -- `get` takes no lock, and makes no folder.
  unfoldable pub get : String → Disk → Ending (ExperimentRecord F)
  get id disk = (read_state id (folder_or_new (lookup id disk))).0

-- The constructor makes the root, as `health` does before its test with `os.access`.
unfoldable pub health :
    (root : String) → (at_mkdir : Event) → (accessible : Bool) → Ending (Unit {0})
health root kills accessible = killed
health root (raises e) accessible = raised e
health root works true = returned tt
health root works false = raised (other ("repository path is not readable and writable: " ++ root))
