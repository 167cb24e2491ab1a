-- ===== src/Artifacts/Stores/Azure.antt =====
-- `AzureBlobArtifactStore`, over a blob container, which is a parameter.
pub mod Laws
use Prim.Native.String.{◌++◌}
use azure_ml_optimization_pl.Base.{Bool, String, ◌≡◌, ◌≢◌, Option, some, List, [], ◌∷◌}
use azure_ml_optimization_pl.Errors.{Error, Result, ok, err}
use azure_ml_optimization_pl.Exec.{Exec, pure, suppress, ◌>>=◌, ◌>>◌}

-- A blob container: its content at a time and the calls of its client. Documented of the service: an
-- upload with `overwrite=True` that returns has replaced the content of the blob of that name, and
-- no upload changes a blob of another name.
pub record Container (B : Type 0) : Type 1 where
  pub State : Type 0
  pub url : (blob_name : String) → String
  pub download : (blob_name : String) → State → Option B
  pub upload : (blob_name : String) → B → Exec State (Unit {0})
  pub create_container : Exec State (Unit {0})
  -- Whether an exception is a `ResourceExistsError`.
  pub is_exists_error : Error → Bool
  -- The first page of `list_blobs`.
  pub first_page : Exec State (List String)
  pub upload_same :
      (name : String) (value : B) (s t : State)
      → upload name value s ≡ (ok tt, t)
      → download name t ≡ some value
  pub upload_other :
      (name other : String) (value : B) (s : State)
      → name ≢ other
      → download other (upload name value s).1 ≡ download other s

unfoldable pub blob_name : (experiment_id name : String) → String
blob_name experiment_id name = "experiments/" ++ (experiment_id ++ ("/" ++ name))

module _ {B : Type 0} (container : Container B) where
  open container use {State, url, upload, first_page, create_container, is_exists_error}

  unfoldable pub init : Exec State (Unit {0})
  init = suppress is_exists_error create_container

  unfoldable pub put_bytes : (experiment_id name : String) → B → Exec State String
  put_bytes experiment_id name value = do
    upload (blob_name experiment_id name) value
    pure (url (blob_name experiment_id name))

  -- The page is read and dropped.
  unfoldable pub health : Exec State (Unit {0})
  health = do page ← first_page; pure tt
