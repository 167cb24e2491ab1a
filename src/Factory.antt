-- ===== src/Factory.antt =====
-- factory.py: which backends the settings choose. A client of a service is the endpoint that it is
-- made from.
pub mod Backends
use azure_ml_optimization_pl.Base.{
  ℕ, String, replace, none, some, ◌≡◌, ◌↔◌, ◌⊎◌, Bool, true, false, not, ◌&&◌, Option, arith,
  if◌then◌else◌,
}
use azure_ml_optimization_pl.Double.{Double}
use azure_ml_optimization_pl.Errors.{Result, ok, err, other, ◌>>=◌}
use azure_ml_optimization_pl.Domain.{ExperimentConfig}
use azure_ml_optimization_pl.Engine.{Run, execute}
use azure_ml_optimization_pl.Config.{
  Settings, Environment, production, StorageBackend, filesystem, azure_blob, present, QueueBackend,
  memory, azure_queue,
}

-- A `BlobServiceClient`, from a connection string or from a URL with the default credential.
pub data BlobService : Type 0 where
  from_connection_string : Option String → BlobService
  with_credential : (account_url : Option String) → BlobService

-- The two kinds of a repository and of an artifact store.
pub data Storage : Type 0 where
  in_directory : (path : String) → Storage
  in_container : BlobService → (name : String) → Storage

unfoldable pub blob_service : Settings → Result BlobService
blob_service s =
    if present s.azure_storage_connection_string
    then ok (from_connection_string s.azure_storage_connection_string)
    else if not (present s.azure_storage_account_url)
    then err (other "MFBO_AZURE_STORAGE_ACCOUNT_URL is required")
    else ok (with_credential s.azure_storage_account_url)

abbrev pub storage_at : StorageBackend → (path name : String) → Result BlobService → Result Storage
storage_at filesystem path name service = ok (in_directory path)
storage_at azure_blob path name service = service >>= λ client. ok (in_container client name)

unfoldable pub repository_from_settings : Settings → Result Storage
repository_from_settings s =
    storage_at s.repository_backend s.state_path s.azure_state_container (blob_service s)

unfoldable pub artifacts_from_settings : Settings → Result Storage
artifacts_from_settings s =
    storage_at s.artifact_backend s.artifact_path s.azure_artifact_container (blob_service s)

abbrev pub is_production : Environment → Bool
is_production production = true
is_production _ = false

module _ {F : Type 0} ⦃d : Double F⦄ (random : (seed index : ℕ) → F) where
  unfoldable pub engine_from_settings : Settings → Result (ExperimentConfig F → Run F)
  engine_from_settings s =
      if is_production s.environment && not s.allow_demo_engine
      then err (other "the demo engine is disabled in production")
      else ok (λ config. execute random config false)

-- A `QueueClient`, from a connection string or from a URL with the default credential.
pub data QueueClient : Type 0 where
  of_connection_string : Option String → (queue_name : String) → QueueClient
  of_account_url : (account_url queue_name : String) → QueueClient

pub data Jobs : Type 0 where
  in_memory : Jobs
  in_azure : QueueClient → (visibility_timeout : ℕ) → Jobs

-- `settings.azure_storage_account_url.replace(".blob.", ".queue.")`, where the URL is there.
unfoldable pub queue_url : Option String → String
queue_url none = ""
queue_url (some url) = replace url ".blob." ".queue."

unfoldable pub queue_client : Settings → Result QueueClient
queue_client s =
    if present s.azure_storage_connection_string
    then ok (of_connection_string s.azure_storage_connection_string s.azure_queue_name)
    else if not (present s.azure_storage_account_url)
    then err (other "MFBO_AZURE_STORAGE_ACCOUNT_URL is required")
    else ok (of_account_url (queue_url s.azure_storage_account_url) s.azure_queue_name)

abbrev pub jobs_at : QueueBackend → (visibility_timeout : ℕ) → Result QueueClient → Result Jobs
jobs_at memory timeout client = ok in_memory
jobs_at azure_queue timeout client = client >>= λ c. ok (in_azure c timeout)

unfoldable pub queue_from_settings : Settings → Result Jobs
queue_from_settings s = jobs_at s.queue_backend s.queue_visibility_timeout_seconds (queue_client s)
