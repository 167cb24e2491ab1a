-- ===== src/Repository/Blob/Mutate.antt =====
-- `mutate` of the blob repository beside other writers and under exceptions of the service.
use azure_ml_optimization_pl.Base.{
  ℕ, zero, suc, String, ◌≡◌, refl, Option, none, some, ◌⊎◌, inl, inr, subst, sym,
}
use azure_ml_optimization_pl.Errors.{Error, Result, ok, err, bind-eq-ok}
use azure_ml_optimization_pl.Domain.{ExperimentRecord}
use azure_ml_optimization_pl.Repository.{Times, Change, prepare}
use azure_ml_optimization_pl.Repository.Blob.{
  Upload, stored, refused, failed, Container, Codec, Others, state_name, parsed, unless_failing,
  get_with_etag, uploaded, prepared, written, tries, mutate,
}

module _ {F : Type 0} (blobs : Container) (json : Codec F) where
  open blobs use {
    State, Tag, Later, download, replace, replace_tag, replace_content, replace_failed, tag_content,
  }

  module _ (others : Others blobs json) (id : String) (change : Change F) where
    open others use {before, between, times}

    -- The container after the moves of other writers alone.
    pub data Untouched (s : State) : State → Type 0 where
      here : Untouched s s
      moved_before : {t : State} (n : ℕ) → Untouched s t → Untouched s (before n t)
      moved_between : {t : State} (n : ℕ) → Untouched s t → Untouched s (between n t)

    -- A write that took effect at a moment, until which other writers alone changed the container:
    -- on the record that the container had then, and by the callback applied to that record.
    pub record Committed (s : State) (r : ExperimentRecord F) (ending : Upload State) (t : State)
        : Type 0 where
      pub at : State
      pub alone : Untouched s at
      pub current : ExperimentRecord F
      pub tag : Tag
      pub found : parsed blobs json id (download (state_name id) at) ≡ ok (current, tag)
      pub clock : Times
      pub made : prepare change clock current ≡ ok r
      pub upload : replace (state_name id) (json.encode r) tag at ≡ ending
      pub content : (new : Tag) × (download (state_name id) t ≡ some (json.encode r, new))

    -- What a call from `s` has written, by how it ended. The last upload of a call that raises may
    -- have taken effect all the same.
    abbrev pub Outcome : State → Result (ExperimentRecord F) × State → Type 0
    Outcome s (ok r, t) = Committed s r (stored t) t
    Outcome s (err e, t) = Untouched s t ⊎ ((r : ExperimentRecord F) × Committed s r (failed e t) t)

    parsed-ok :
        (o : Option (String × Tag)) (r : ExperimentRecord F) (tag : Tag)
        → parsed blobs json id o ≡ ok (r, tag)
        → (content : String) × (o ≡ some (content, tag)) × (json.decode content ≡ ok r)
    parsed-ok none r tag h = cc
    parsed-ok (some (content, tag')) r tag h =
        let (r', e, f) = bind-eq-ok (json.decode content) (λ x. ok (x, tag')) h in
        (content, cc f, cc (e, f))

    unless_failing-ok :
        (o : Option Error) (q : Result (ExperimentRecord F × Tag)) (x : ExperimentRecord F × Tag)
        → unless_failing blobs json o q ≡ ok x
        → q ≡ ok x
    unless_failing-ok none q x h = h
    unless_failing-ok (some e) q x h = cc

    -- A content that still has the ETag that was read has the record that was read.
    same_record :
        (now after : State) (old : String) (r : ExperimentRecord F) (tag : Tag)
        → Later now after
        → get_with_etag blobs json id now ≡ ok (r, tag)
        → download (state_name id) after ≡ some (old, tag)
        → parsed blobs json id (download (state_name id) after) ≡ ok (r, tag)
    unfolding get_with_etag
    same_record now after kept r tag later got still =
        let (old, there, parses) =
          parsed-ok (download (state_name id) now) r tag
            (unless_failing-ok (blobs.download_error (state_name id) now) _ (r, tag) got) in
        let same = tag_content (state_name id) old kept tag now after later there still in
        rw (still, ← same, parses)

    module _ (moves_on : (n : ℕ) (s : State) → Later s (between n s)) where
      uploaded-Outcome :
          (again : State → Result (ExperimentRecord F) × State) (first after : State)
          (o : Upload State) (r current : ExperimentRecord F) (tag : Tag) (clock : Times)
          → Untouched first after
          → Outcome first (again after)
          → ((old : String)
              → download (state_name id) after ≡ some (old, tag)
              → parsed blobs json id (download (state_name id) after) ≡ ok (current, tag))
          → prepare change clock current ≡ ok r
          → replace (state_name id) (json.encode r) tag after ≡ o
          → Outcome first (uploaded blobs json others id change again r after o)
      uploaded-Outcome again first after refused r current tag clock u k got made e = k
      uploaded-Outcome again first after (stored t) r current tag clock u k got made e =
          let (old, still) = replace_tag _ _ _ _ _ e in
          record {
            at = after;
            alone = u;
            current = current;
            tag = tag;
            found = got old still;
            clock = clock;
            made = made;
            upload = e;
            content = replace_content _ _ _ _ _ e;
          }
      uploaded-Outcome again first after (failed x t) r current tag clock u k got made e =
          elim (replace_failed _ _ _ _ _ _ e) [
            | inl same ↦ inl (subst (Untouched first) (sym same) u)
            | inr ((old, still), content) ↦ inr (
              r,
              record {
                at = after;
                alone = u;
                current = current;
                tag = tag;
                found = got old still;
                clock = clock;
                made = made;
                upload = e;
                content = content;
              },
            )
          ]

      prepared-Outcome :
          (again : State → Result (ExperimentRecord F) × State) (first now after : State)
          (p : Result (ExperimentRecord F)) (current : ExperimentRecord F) (tag : Tag)
          (clock : Times)
          → Untouched first now
          → Untouched first after
          → Later now after
          → Outcome first (again after)
          → get_with_etag blobs json id now ≡ ok (current, tag)
          → prepare change clock current ≡ p
          → Outcome first (prepared blobs json others id change again p tag now after)
      prepared-Outcome again first now after (err e) current tag clock u v later k got made = inl u
      prepared-Outcome again first now after (ok r) current tag clock u v later k got made =
          uploaded-Outcome again first after (replace (state_name id) (json.encode r) tag after) r
            current tag clock v k
            (λ old still. same_record now after old current tag later got still) made refl

      written-Outcome :
          (again : State → Result (ExperimentRecord F) × State) (first now after : State)
          (clock : Times) (q : Result (ExperimentRecord F × Tag))
          → Untouched first now
          → Untouched first after
          → Later now after
          → Outcome first (again after)
          → get_with_etag blobs json id now ≡ q
          → Outcome first (written blobs json others id change again q now after clock)
      written-Outcome again first now after clock (err e) u v later k got = inl u
      written-Outcome again first now after clock (ok (current, tag)) u v later k got =
          prepared-Outcome again first now after (prepare change clock current) current tag clock u
            v later k got refl

      tries-Outcome :
          (n : ℕ) (first s : State)
          → Untouched first s
          → Outcome first (tries blobs json others id change n s)
      unfolding tries
      tries-Outcome zero first s u = inl u
      tries-Outcome (suc n) first s u =
          let now = before n s in
          let seen = Untouched.moved_before n u in
          let then = Untouched.moved_between n seen in
          written-Outcome (tries blobs json others id change n) first now (between n now) (times n)
            (get_with_etag blobs json id now) seen then (moves_on n now)
            (tries-Outcome n first (between n now) then) refl

      -- If other writers keep the service's promise on ETags, and whatever they do between the
      -- downloads and the uploads: a `mutate` that returns has replaced, in one conditional upload,
      -- the very record that the callback was applied to, and until then other writers alone
      -- changed the container; and one that raises has written nothing, or its last upload raised
      -- that exception and has replaced the record in the same way.
      pub mutate-Outcome : (s : State) → Outcome s (mutate blobs json others id change s)
      unfolding mutate
      mutate-Outcome s = tries-Outcome 5 s s Untouched.here
