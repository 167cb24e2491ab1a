-- ===== src/Repository/Blob/Create.antt =====
-- `create` of the blob repository, and the `get` behind it.
use azure_ml_optimization_pl.Base.{
  ◌≡◌, refl, ◌⊎◌, none, some, Option-cases, Option, inl, inr, String,
}
use Prim.Native.String.{◌++◌}
use azure_ml_optimization_pl.Errors.{Result, ok, err, conflict_error}
use azure_ml_optimization_pl.Domain.{ExperimentRecord}
use azure_ml_optimization_pl.Repository.{missing}
use azure_ml_optimization_pl.Repository.Blob.{
  Upload, stored, refused, failed, Container, Codec, unless_failing, created, parsed, record_of,
  create, get, get_with_etag, state_name,
}

module _ {F : Type 0} (blobs : Container) (json : Codec F) where
  open blobs use {
    State, Tag, download, download_error, upload_new, upload_new_absent, upload_new_content,
    upload_new_exists, upload_new_failed,
  }

  -- The container had no blob of the record and has its JSON now.
  abbrev pub Written : ExperimentRecord F → State → State → Type 0
  Written r s t =
      let name = state_name r.experiment_id in
      (download name s ≡ none) × ((new : Tag) × (download name t ≡ some (json.encode r, new)))

  -- What `create` of a record `r` does from the content `s`: how it ends, and what the container
  -- has then.
  abbrev pub Creation : ExperimentRecord F → State → Result (Unit {0}) × State → Type 0
  Creation r s (ok u, t) =
      let id = r.experiment_id in
      let failure = download_error (state_name id) in
      Written r s t
      × (get blobs json id s ≡ unless_failing blobs json (failure s) (err (missing id)))
      × (get blobs json id t ≡ unless_failing blobs json (failure t) (ok r))
  Creation r s (err e, t) =
      ((t ≡ s)
        × (e ≡ conflict_error ("experiment " ++ r.experiment_id ++ " already exists"))
        × ((old : String × Tag) × (download (state_name r.experiment_id) s ≡ some old)))
      ⊎ ((upload_new (state_name r.experiment_id) (json.encode r) s ≡ failed e t)
          × ((t ≡ s) ⊎ Written r s t))

  get_at :
      (id : String) (s : State) (o : Option (String × Tag)) (q : Result (ExperimentRecord F))
      → download (state_name id) s ≡ o
      → record_of blobs json (parsed blobs json id o) ≡ q
      → get blobs json id s ≡ unless_failing blobs json (download_error (state_name id) s) q
  unfolding get get_with_etag
  get_at id s o q e f = elim (Option-cases (download_error (state_name id) s)) [
    | inl fine ↦ rw (fine, e, f) refl
    | inr (x, fails) ↦ rw fails refl
  ]

  created-Creation :
      (r : ExperimentRecord F) (s : State)
      → json.decode (json.encode r) ≡ ok r
      → (o : Upload State) → upload_new (state_name r.experiment_id) (json.encode r) s ≡ o
      → Creation r s (created blobs json r s o)
  created-Creation r s parses (stored t) e =
      let absent = upload_new_absent _ _ s t e in
      let (new, there) = upload_new_content _ _ s t e in
      (
        (absent, (new, there)),
        get_at r.experiment_id s none _ absent refl,
        get_at r.experiment_id t _ _ there (rw parses refl),
      )
  created-Creation r s parses refused e = inl (refl, refl, upload_new_exists _ _ s e)
  created-Creation r s parses (failed x t) e = inr (e, upload_new_failed _ _ s x t e)

  -- A `create` of a record whose JSON parses back: if it returns, there was no blob of the record
  -- and there is one now, so that `get` did not find the record and finds it now, where the
  -- download does not fail; if it raises, then either the experiment has a blob, the exception is
  -- the conflict and the container is left alone, or the upload raised that exception, and has
  -- stored the whole record where there was none or has left the container alone.
  pub create-Creation :
      (r : ExperimentRecord F) (s : State)
      → json.decode (json.encode r) ≡ ok r
      → Creation r s (create blobs json r s)
  unfolding create
  create-Creation r s parses = created-Creation r s parses _ refl
