-- ===== src/Artifacts/Stores/Azure/Laws.antt =====
-- The container of `AzureBlobArtifactStore` before and after a `put_bytes`.
use Prim.Native.String.{◌++◌}
use text.Mathlib.TextLemmas.{append_cancel_left}
use azure_ml_optimization_pl.Base.{subst, String, ◌≡◌, ◌≢◌, refl, sym, ap, ◌∙◌, true, some, lacks}
use azure_ml_optimization_pl.Base.Texts.Segments.{segment_inj, slash-append}
use azure_ml_optimization_pl.Errors.{Result, ok, err}
use azure_ml_optimization_pl.Exec.{continue, pure, ◌>>=◌}
use azure_ml_optimization_pl.Exec.Ensures.{bind_inverse}
use azure_ml_optimization_pl.Artifacts.Stores.Azure.{Container, blob_name, put_bytes}

continue_pure :
    {S A C : Type 0} (r : Result A) (c : C) (s : S) → (continue r (λ a t. (ok c, t)) s).1 ≡ s
continue_pure (ok a) c s = refl
continue_pure (err e) c s = refl

blob_name_inj :
    (id name id' name' : String)
    → lacks 47 id ≡ true
    → lacks 47 id' ≡ true
    → blob_name id name ≡ blob_name id' name'
    → (id ≡ id') × (name ≡ name')
unfolding blob_name
blob_name_inj id name id' name' h k e = segment_inj id id' name name' h k (
    ap (λ x. id ++ x) (sym (slash-append name))
    ∙ append_cancel_left "experiments/" _ _ e
    ∙ ap (λ x. id' ++ x) (slash-append name'))

module _ {B : Type 0} (container : Container B) where
  open container use {State, url, download, upload, upload_same, upload_other}

  put_bytes-ok :
      (id name : String) (value : B) (address : String) (s t : State)
      → put_bytes container id name value s ≡ (ok address, t)
      → (address ≡ url (blob_name id name)) × (download (blob_name id name) t ≡ some value)
  unfolding put_bytes pure
  put_bytes-ok id name value address s t returned =
      let (u, after, there, ends) = bind_inverse _ _ s t address returned in
      let stored = upload_same (blob_name id name) value s after there in
      let last : after ≡ t = ap (λ q. q.1) ends in
      (cc ends, subst (λ x. download (blob_name id name) x ≡ some value) last stored)

  put_bytes-other :
      (id name : String) (value : B) (s : State) (other : String)
      → blob_name id name ≢ other
      → download other (put_bytes container id name value s).1 ≡ download other s
  unfolding put_bytes pure ◌>>=◌
  put_bytes-other id name value s other apart =
      ap (download other) (continue_pure _ _ _)
      ∙ upload_other (blob_name id name) other value s apart

  -- For experiments whose ids have no slash: a `put_bytes` that returns gives the URL of a blob with
  -- the bytes; and whether it returns or raises, no blob of another artifact changes, of the same or
  -- of another experiment.
  pub put_bytes-Separate :
      (id name : String) (value : B) (s : State)
      → lacks 47 id ≡ true
      → let (r, t) = put_bytes container id name value s in
        ((address : String)
          → r ≡ ok address
          → (address ≡ url (blob_name id name)) × (download (blob_name id name) t ≡ some value))
        × ((id' name' : String)
            → lacks 47 id' ≡ true
            → ¬ ((id ≡ id') × (name ≡ name'))
            → download (blob_name id' name') t ≡ download (blob_name id' name') s)
  put_bytes-Separate id name value s h = (
    λ address returned. put_bytes-ok id name value address s _ (rw returned refl),
    λ id' name' k apart.
        put_bytes-other id name value s (blob_name id' name')
          (λ same. apart (blob_name_inj id name id' name' h k same)),
  )
