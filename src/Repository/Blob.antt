-- ===== src/Repository/Blob.antt =====
-- `AzureBlobExperimentRepository` of repositories.py: `create`, `get` and `mutate`. The container,
-- the JSON of a record, the clock and the other writers are parameters. An exception of the service
-- that the code does not catch is passed on.
pub mod Create
pub mod Listing
pub mod Mutate
use azure_ml_optimization_pl.Base.{
  ℕ, zero, suc, String, ◌≡◌, refl, Bool, List, Option, none, some, ◌⊎◌,
}
use Prim.Native.String.{◌++◌}
use azure_ml_optimization_pl.Errors.{Error, Result, ok, err, conflict_error, ◌>>=◌, bind-eq-ok}
use azure_ml_optimization_pl.Exec.{Exec, pure, suppress, ◌>>=◌ as bind}
use azure_ml_optimization_pl.Domain.{ExperimentRecord}
use azure_ml_optimization_pl.Repository.{Times, Change, missing, prepare}

-- How a conditional upload ends: with the blob stored, with the exception that says that its
-- condition does not hold, or with another exception, a timeout for example.
pub data Upload (State : Type 0) : Type 0 where
  stored : State → Upload State
  refused : Upload State
  failed : Error → State → Upload State

-- A blob container: the content and the ETag of its blobs at a time, whether a download fails, and
-- the upload under the condition that the blob has a given ETag or that there is none. `Later`
-- relates an earlier to a later content. Documented of the service: a conditional upload takes
-- effect only on the blob that has the ETag, an upload without overwriting only where there is no
-- blob; an upload that another exception ends has taken effect whole or not at all; and an ETag is
-- never used for two contents of a blob.
pub record Container : Type 1 where
  pub State : Type 0
  pub Tag : Type 0
  pub Later : State → State → Type 0
  pub create_container : Exec State (Unit {0})
  -- Whether an exception is a `ResourceExistsError`.
  pub is_exists_error : Error → Bool
  -- The first page of `list_blobs`.
  pub first_page : Exec State (List String)
  -- The blob that a name has; a download raises `ResourceNotFoundError` where there is none.
  pub download : String → State → Option (String × Tag)
  -- Another exception of a download.
  pub download_error : String → State → Option Error
  -- The upload with `MatchConditions.IfNotModified`, refused by `ResourceModifiedError`.
  pub replace : String → String → Tag → State → Upload State
  -- The upload with `overwrite=False`, refused by `ResourceExistsError`.
  pub upload_new : String → String → State → Upload State
  pub upload_new_absent :
      (name content : String) (s t : State)
      → upload_new name content s ≡ stored t
      → download name s ≡ none
  pub upload_new_content :
      (name content : String) (s t : State)
      → upload_new name content s ≡ stored t
      → (new : Tag) × (download name t ≡ some (content, new))
  pub upload_new_exists :
      (name content : String) (s : State)
      → upload_new name content s ≡ refused
      → (old : String × Tag) × (download name s ≡ some old)
  pub upload_new_failed :
      (name content : String) (s : State) (e : Error) (t : State)
      → upload_new name content s ≡ failed e t
      → (t ≡ s)
        ⊎ ((download name s ≡ none) × ((new : Tag) × (download name t ≡ some (content, new))))
  pub replace_tag :
      (name content : String) (tag : Tag) (s t : State)
      → replace name content tag s ≡ stored t
      → (old : String) × (download name s ≡ some (old, tag))
  pub replace_content :
      (name content : String) (tag : Tag) (s t : State)
      → replace name content tag s ≡ stored t
      → (new : Tag) × (download name t ≡ some (content, new))
  pub replace_failed :
      (name content : String) (tag : Tag) (s : State) (e : Error) (t : State)
      → replace name content tag s ≡ failed e t
      → (t ≡ s)
        ⊎ (((old : String) × (download name s ≡ some (old, tag)))
            × ((new : Tag) × (download name t ≡ some (content, new))))
  pub tag_content :
      (name a b : String) (tag : Tag) (s t : State)
      → Later s t
      → download name s ≡ some (a, tag)
      → download name t ≡ some (b, tag)
      → a ≡ b

-- `model_dump_json` and `model_validate_json`.
pub record Codec (F : Type 0) : Type 0 where
  pub encode : ExperimentRecord F → String
  pub decode : String → Result (ExperimentRecord F)

-- `_state_name`
abbrev pub state_name : String → String
state_name id = "experiments/" ++ (id ++ "/state.json")

module _ {F : Type 0} (blobs : Container) (json : Codec F) where
  open blobs use {State, Tag, Later, download, replace, replace_tag, replace_content, tag_content}

  -- What other writers do to the container before a download, and between it and the upload, by the
  -- number of tries left; and the clock.
  pub record Others : Type 0 where
    pub before : ℕ → State → State
    pub between : ℕ → State → State
    pub times : ℕ → Times

  abbrev pub parsed : String → Option (String × Tag) → Result (ExperimentRecord F × Tag)
  parsed id none = err (missing id)
  parsed id (some (content, tag)) = json.decode content >>= λ r. ok (r, tag)

  -- A download that another exception ends, or one that does not.
  abbrev pub unless_failing : {A : Type 0} → Option Error → Result A → Result A
  unless_failing none q = q
  unless_failing (some e) q = err e

  unfoldable pub get_with_etag : String → State → Result (ExperimentRecord F × Tag)
  get_with_etag id s =
      let name = state_name id in
      unless_failing (blobs.download_error name s) (parsed id (download name s))

  -- `self._get_with_etag(experiment_id)[0]`
  abbrev pub record_of : Result (ExperimentRecord F × Tag) → Result (ExperimentRecord F)
  record_of (ok (r, tag)) = ok r
  record_of (err e) = err e

  unfoldable pub get : String → State → Result (ExperimentRecord F)
  get id s = record_of (get_with_etag id s)

  abbrev created : ExperimentRecord F → State → Upload State → Result (Unit {0}) × State
  created r s (stored t) = (ok tt, t)
  created r s refused =
      (err (conflict_error ("experiment " ++ r.experiment_id ++ " already exists")), s)
  created r s (failed e t) = (err e, t)

  unfoldable pub init : Exec State (Unit {0})
  init = suppress blobs.is_exists_error blobs.create_container

  -- The page is read and dropped.
  unfoldable pub health : Exec State (Unit {0})
  health = bind blobs.first_page (λ page. pure tt)

  unfoldable pub create : ExperimentRecord F → State → Result (Unit {0}) × State
  create r s = created r s (blobs.upload_new (state_name r.experiment_id) (json.encode r) s)

  module _ (others : Others) (id : String) (change : Change F) where
    open others use {before, between, times}

    abbrev pub uploaded :
        (State → Result (ExperimentRecord F) × State)
        → ExperimentRecord F
        → State
        → Upload State
        → Result (ExperimentRecord F) × State
    uploaded again r s refused = again s
    uploaded again r s (stored t) = (ok r, t)
    uploaded again r s (failed e t) = (err e, t)

    abbrev pub prepared :
        (State → Result (ExperimentRecord F) × State)
        → Result (ExperimentRecord F)
        → Tag
        → (now after : State) → Result (ExperimentRecord F) × State
    prepared again (err e) tag now after = (err e, now)
    prepared again (ok r) tag now after =
        uploaded again r after (replace (state_name id) (json.encode r) tag after)

    abbrev pub written :
        (State → Result (ExperimentRecord F) × State)
        → Result (ExperimentRecord F × Tag)
        → (now after : State) → Times
        → Result (ExperimentRecord F) × State
    written again (err e) now after t = (err e, now)
    written again (ok (current, tag)) now after t =
        prepared again (prepare change t current) tag now after

    -- The tries that are left, from a content of the container.
    unfoldable pub tries : ℕ → State → Result (ExperimentRecord F) × State
    tries zero s = (err (conflict_error ("concurrent updates did not converge for " ++ id)), s)
    tries (suc n) s =
        let now = before n s in
        written (tries n) (get_with_etag id now) now (between n now) (times n)

    unfoldable pub mutate : State → Result (ExperimentRecord F) × State
    unfolding tries
    mutate s = tries 5 s
