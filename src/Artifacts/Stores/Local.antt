-- ===== src/Artifacts/Stores/Local.antt =====
-- `LocalArtifactStore`. A path is the list of its parts, and the disk a dict from the texts of
-- absolute paths. No directory is a symbolic link, and no part of a path is `..`. Each call of the
-- operating system may fail, and a write that fails may leave a part of the bytes.
pub mod Laws
use Prim.Native.String.{◌++◌}
use azure_ml_optimization_pl.Base.{
  ℕ, zero, suc, String, str_eq, Dict, lookup, insert, Bool, not, ◌&&◌, Option, none, some, List, [],
  ◌∷◌, ◌++◌ as append, split, starts_with, if◌then◌else◌,
}
use azure_ml_optimization_pl.Errors.{Error, Result, ok, err, other}
use azure_ml_optimization_pl.Exec.{Exec, pure, ◌>>=◌, ◌>>◌}

pub record FilePath : Type 0 where
  pub absolute : Bool
  pub parts : List String

abbrev kept_parts : List String → List String
kept_parts [] = []
kept_parts (p ∷ ps) =
    let rest = kept_parts ps in if not (str_eq p "") && not (str_eq p ".") then p ∷ rest else rest

-- `Path(text)`
unfoldable pub to_path : String → FilePath
to_path text = record { absolute = starts_with text "/"; parts = kept_parts (split text 47) }

-- `path / text`: an absolute path on the right takes the place of the left one.
unfoldable pub join : FilePath → String → FilePath
join p text =
    let q = to_path text in if q.absolute then q else record p { parts = append p.parts q.parts }

-- The parts below `/`, from the working directory.
abbrev pub location : (cwd : List String) → FilePath → List String
location cwd p = if p.absolute then p.parts else append cwd p.parts

-- `str` of an absolute path that is not `/`.
unfoldable pub path_text : List String → String
path_text [] = ""
path_text (p ∷ ps) = "/" ++ (p ++ path_text ps)

-- `path.parent`, of the parts.
unfoldable pub parent : List String → List String
parent [] = []
parent (p ∷ []) = []
parent (p ∷ q ∷ ps) = p ∷ parent (q ∷ ps)

module _ (B : Type 0) where
  pub data Entry : Type 0 where
    directory : Entry
    file : B → Entry

  abbrev pub Disk : Type 0
  Disk = Dict Entry

  -- What the calls of one method do: an exception at a directory or at the write, and the bytes that
  -- are in the file then, if it was opened.
  pub record Calls : Type 0 where
    pub at_mkdir : String → Option Error
    pub at_write : Option Error
    pub left : Option B

  module _ (calls : Calls) where
    -- One directory, where there is none: `exist_ok=True`.
    abbrev made : (path : String) → Option Error → Option Entry → Exec Disk (Unit {0})
    made path (some e) entry disk = (err e, disk)
    made path none none disk = (ok tt, insert path directory disk)
    made path none (some directory) disk = (ok tt, disk)
    made path none (some (file b)) disk = (err (other "FileExistsError"), disk)

    unfoldable pub make_directory : String → Exec Disk (Unit {0})
    make_directory path disk = made path (calls.at_mkdir path) (lookup path disk) disk

    -- `mkdir(parents=True, exist_ok=True)`, from the directory `above`.
    unfoldable pub mkdir : (above : String) → List String → Exec Disk (Unit {0})
    mkdir above [] = pure tt
    mkdir above (p ∷ ps) = let path = above ++ ("/" ++ p) in make_directory path >> mkdir path ps

    abbrev cut_off : (path : String) → Option B → Disk → Disk
    cut_off path none disk = disk
    cut_off path (some b) disk = insert path (file b) disk

    -- `write_bytes`, in a directory that is there.
    abbrev written : (path : String) → B → Option Error → Option Entry → Exec Disk (Unit {0})
    written path value e (some directory) disk = (err (other "IsADirectoryError"), disk)
    written path value (some e) entry disk = (err e, cut_off path calls.left disk)
    written path value none entry disk = (ok tt, insert path (file value) disk)

    unfoldable pub write_bytes : (path : String) → B → Exec Disk (Unit {0})
    write_bytes path value disk = written path value calls.at_write (lookup path disk) disk

    module _ (cwd : List String) (root : FilePath) where
      -- `str(destination.resolve())`
      unfoldable pub destination : (experiment_id name : String) → List String
      destination experiment_id name = location cwd (join (join root experiment_id) name)

      unfoldable pub put_bytes : (experiment_id name : String) → B → Exec Disk String
      put_bytes experiment_id name value =
          let parts = destination experiment_id name in
          do mkdir "" (parent parts); write_bytes (path_text parts) value; pure (path_text parts)

      -- The constructor makes the root, as `health` does.
      unfoldable pub health : Exec Disk (Unit {0})
      health = mkdir "" (location cwd root)
