-- ===== src/Examples/Stores.antt =====
-- The artifact stores at concrete artifacts: a container as a dict, and a disk with a root.
use azure_ml_optimization_pl.Base.{
  String, str_eq, eq_iff, ◌≡◌, ◌≢◌, refl, Dict, lookup, insert, lookup-insert, lookup-insert_self,
  true, none, some, [], ◌∷◌, lacks, arith, ap, subst, split, starts_with, if◌then◌else◌, false,
}
use azure_ml_optimization_pl.Errors.{ok, other}
use azure_ml_optimization_pl.Exec.{Exec, pure, ◌>>=◌}
use azure_ml_optimization_pl.Artifacts.Stores.Azure.{Container, blob_name}
use azure_ml_optimization_pl.Artifacts.Stores.Azure.Laws.{put_bytes-Separate}
use azure_ml_optimization_pl.Artifacts.Stores.Azure.{put_bytes as put_blob}
use azure_ml_optimization_pl.Artifacts.Stores.Local.{
  FilePath, Calls, directory, file, Disk, to_path, put_bytes, destination, join, path_text, mkdir,
  make_directory, write_bytes, parent,
}
use azure_ml_optimization_pl.Artifacts.Stores.Local.Laws.{Holds, put_bytes-Stored}

abbrev upload : String → String → Exec (Dict String) (Unit {0})
upload name value s = (ok tt, insert name value s)

upload-other :
    (name name' value : String) (s : Dict String)
    → name ≢ name'
    → lookup name' (insert name value s) ≡ lookup name' s
upload-other name name' value s apart =
    rw (lookup-insert name name' value s) (ground (arith, eq_iff name name'))

abbrev container : Container String
container = record {
  State = Dict String;
  url = λ name. name;
  download = λ name s. lookup name s;
  upload = upload;
  create_container = λ s. (ok tt, s);
  is_exists_error = λ e. false;
  first_page = λ s. (ok [], s);
  upload_same = λ name value s t h.
      subst (λ x. lookup name x ≡ some value) (ap (λ q. q.1) h) (lookup-insert_self name value s);
  upload_other = upload-other;
}

put_bytes-Separate_example :
    let (r, t) = put_blob container "e1" "metrics.json" "[]" [] in
    ((address : String)
      → r ≡ ok address
      → (address ≡ blob_name "e1" "metrics.json")
        × (lookup (blob_name "e1" "metrics.json") t ≡ some "[]"))
    × ((id' name' : String)
        → lacks 47 id' ≡ true
        → ¬ (("e1" ≡ id') × ("metrics.json" ≡ name'))
        → lookup (blob_name id' name') t ≡ lookup (blob_name id' name') [])
unfolding lacks
put_bytes-Separate_example = put_bytes-Separate container "e1" "metrics.json" "[]" [] refl

-- The second directory cannot be made.
abbrev calls : Calls String
calls = record {
  at_mkdir = λ path. if str_eq path "/artifacts/e2" then some (other "OSError") else none;
  at_write = none;
  left = none;
}

abbrev root : FilePath
root = record { absolute = false; parts = "artifacts" ∷ [] }

abbrev disk : Disk String
disk = ("/app", directory) ∷ ("/app/artifacts/e1/plot.svg", file "<svg>") ∷ []

put_bytes-Stored_example :
    let (r, t) = put_bytes String calls ("app" ∷ []) root "e1" "metrics.json" "[]" disk in
    ((path : String) → r ≡ ok path → Holds String path "[]" t)
    × ((path b : String)
        → "/app/artifacts/e1/metrics.json" ≢ path
        → Holds String path b disk
        → Holds String path b t)
unfolding destination join to_path path_text split starts_with
put_bytes-Stored_example =
    put_bytes-Stored String calls ("app" ∷ []) root "e1" "metrics.json" "[]" disk

-- The path that it returns, for the same artifact.
put_runs :
    (put_bytes String calls ("app" ∷ []) root "e1" "metrics.json" "[]" disk).0
    ≡ ok "/app/artifacts/e1/metrics.json"
unfolding put_bytes mkdir make_directory write_bytes destination join to_path path_text parent split
    starts_with lookup insert ◌>>=◌ pure
put_runs = refl
