-- ===== src/Examples/Disks.antt =====
-- The filesystem repository on a disk with one record.
use azure_ml_optimization_pl.Base.{
  ◌≡◌, refl, none, some, [], ◌∷◌, lookup, str_eq, if◌then◌else◌, Bool, true, false,
}
use azure_ml_optimization_pl.Base.Int.{ℤ}
use azure_ml_optimization_pl.Domain.{ExperimentRecord, new_record}
use azure_ml_optimization_pl.Errors.{ok, other}
use azure_ml_optimization_pl.Repository.{Store}
use azure_ml_optimization_pl.World.{Answer, mutate_under, create_under}
use azure_ml_optimization_pl.Repository.Files.{Folder, Disk, raises, kills, Faults, atomic_write}
use azure_ml_optimization_pl.Repository.Files.Atomic.{IsAtomic, atomic_write-IsAtomic}
use azure_ml_optimization_pl.Repository.Files.Methods.{Calls, mutate, create, folder_or_new}
use azure_ml_optimization_pl.Repository.Files.Effects.{Represents, Agrees, encoded}
use azure_ml_optimization_pl.Repository.Files.Refines.{mutate-refines, create-refines}
use azure_ml_optimization_pl.Repository.Files.Smooth.{smooth, ending_of, mutate-smooth}
use azure_ml_optimization_pl.Repository
use azure_ml_optimization_pl.Service.Changes.{cancel}
use azure_ml_optimization_pl.Examples.Data.{at_second, queued_record}
use azure_ml_optimization_pl.Examples.Blobs.{names}

abbrev one_state : Folder
one_state = record { state = some "e1"; temporaries = [] }

abbrev one_disk : Disk
one_disk = ("e1", one_state) ∷ []

abbrev one_record : Store ℤ
one_record = ("e1", queued_record) ∷ []

one_disk_state :
    (b : Bool)
    → (folder_or_new (if b then some one_state else none)).state
      ≡ encoded names (if b then some queued_record else none)
unfolding new_record
one_disk_state true = refl
one_disk_state false = refl

one_disk-Represents : Represents names one_disk one_record
unfolding lookup
one_disk-Represents = record { at = λ j. one_disk_state (str_eq "e1" j) }

one_record_parses :
    (r : ExperimentRecord ℤ)
    → lookup "e1" one_record ≡ some r
    → names.decode (names.encode r) ≡ ok r
unfolding lookup
one_record_parses r h = cc

abbrev another_record : ExperimentRecord ℤ
another_record = record queued_record { experiment_id = "e2" }

-- The process is killed at `os.replace`.
abbrev killed_late : Calls
killed_late =
    let c = smooth ".state.json.x" in
    record c { writing = record (c.writing) { at_replace = kills } }

-- `fsync` raises.
abbrev unsynced : Faults
unsynced = record ((smooth ".state.json.x").writing) { at_sync = raises (other "no space left") }

atomic_write-IsAtomic_example :
    let (r, u) = atomic_write unsynced "e2" one_state in IsAtomic "e2" ".state.json.x" one_state r u
atomic_write-IsAtomic_example = atomic_write-IsAtomic unsynced "e2" one_state

mutate-refines_example :
    let (q, disk') = mutate names killed_late "e1" cancel (at_second 1) one_disk in
    (a : Answer) × Agrees names q (mutate_under a "e1" cancel (at_second 1) one_record).0
    × Represents names disk' (mutate_under a "e1" cancel (at_second 1) one_record).1
mutate-refines_example =
    mutate-refines names killed_late "e1" cancel (at_second 1) one_disk one_record
      one_disk-Represents one_record_parses

mutate-smooth_example :
    let (q, disk') = mutate names (smooth ".state.json.x") "e1" cancel (at_second 1) one_disk in
    let (p, s') = Repository.mutate "e1" cancel (at_second 1) one_record in
    (q ≡ ending_of p) × Represents names disk' s'
mutate-smooth_example =
    mutate-smooth names ".state.json.x" "e1" cancel (at_second 1) one_disk one_record
      one_disk-Represents one_record_parses

create-refines_example :
    let (q, disk') = create names killed_late another_record one_disk in
    (a : Answer) × Agrees names q (create_under a another_record one_record).0
    × Represents names disk' (create_under a another_record one_record).1
create-refines_example =
    create-refines names killed_late another_record one_disk one_record one_disk-Represents
