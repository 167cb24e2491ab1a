-- ===== src/Repository/Blob/Listing/Complete.antt =====
-- `iter_records` of the blob repository beside its `get`.
use Prim.{absurd}
use Prim.Native.String.{◌++◌}
use text.Mathlib.TextLemmas.{append_assoc}
use mathlib.Core.List.{Memᴰ}
use mathlib.Core.List.Memᴰ
use azure_ml_optimization_pl.Base.{
  subst, ◌≢◌, ◌⊎◌, String, ◌≡◌, refl, sym, ap, ◌∙◌, Bool, inl, inr, true, false, List, [], ◌∷◌,
  Option, none, some, starts_with, ends_with, split, lacks, if◌then◌else◌,
}
use azure_ml_optimization_pl.Base.Texts.Segments.{
  split-segment, ends_with-append, starts_with-append,
}
use azure_ml_optimization_pl.Protocol.Record.{is_some}
use azure_ml_optimization_pl.Errors.{Error, Result, ok, err}
use azure_ml_optimization_pl.Domain.{ExperimentRecord}
use azure_ml_optimization_pl.Repository.Blob.{
  Container, Codec, get, get_with_etag, state_name, record_of, parsed, unless_failing,
}
use azure_ml_optimization_pl.Repository.Blob.Listing.{
  Yielded, yield_next, get_part, visit, iter_records,
}

-- The name of a state blob has the id between its slashes.
split-state_name :
    (id : String)
    → lacks 47 id ≡ true
    → split (state_name id) 47 ≡ "experiments" ∷ id ∷ "state.json" ∷ []
unfolding lacks split
split-state_name id h =
    ap (λ x. split x 47) (append_assoc "experiments" "/" (id ++ ("/" ++ "state.json")))
    ∙ split-segment "experiments" (id ++ ("/" ++ "state.json")) refl
    ∙ ap (λ x. "experiments" ∷ x) (split-segment id "state.json" h)

ends_with-state_name : (id : String) → ends_with (state_name id) "/state.json" ≡ true
ends_with-state_name id =
    ap (λ x. ends_with x "/state.json") (sym (append_assoc "experiments/" id "/state.json"))
    ∙ ends_with-append ("experiments/" ++ id) "/state.json"

err-ne-ok : {A : Type 0} {e : Error} {a : A} → err e ≢ ok a
err-ne-ok h = cc h

module _ {F : Type 0} (blobs : Container) (json : Codec F)
    (list_blobs : (name_starts_with : String) → blobs.State → List String) (s : blobs.State) where
  abbrev Visited : List String → Yielded (ExperimentRecord F)
  Visited names = visit blobs json list_blobs names s

  -- A pass of the loop.
  abbrev next :
      Bool
      → Result (ExperimentRecord F)
      → Yielded (ExperimentRecord F)
      → Yielded (ExperimentRecord F)
  next b q rest = if b then yield_next blobs json list_blobs q rest else rest

  next_tail :
      (b : Bool) (q : Result (ExperimentRecord F)) (rest : Yielded (ExperimentRecord F))
      (r : ExperimentRecord F)
      → (next b q rest).ending ≡ ok tt
      → (rest.ending ≡ ok tt) × (Memᴰ r rest.values → Memᴰ r (next b q rest).values)
  next_tail false q rest r h = (h, λ m. m)
  next_tail true (ok a) rest r h = (h, λ m. Memᴰ.tail m)
  next_tail true (err e) rest r h = cc

  next_sound :
      (b : Bool) (q : Result (ExperimentRecord F)) (rest : Yielded (ExperimentRecord F))
      (r : ExperimentRecord F)
      → Memᴰ r (next b q rest).values
      → (q ≡ ok r) ⊎ Memᴰ r rest.values
  next_sound false q rest r m = inr m
  next_sound true (ok a) rest r (Memᴰ.head e) = inl (ap ok (sym e))
  next_sound true (ok a) rest r (Memᴰ.tail m) = inr m
  next_sound true (err e) rest r m = absurd (Memᴰ.not-nil m)

  get_part-ok :
      (part : Option String) (r : ExperimentRecord F)
      → get_part blobs json list_blobs part s ≡ ok r
      → (id : String) × (get blobs json id s ≡ ok r)
  get_part-ok none r h = cc
  get_part-ok (some id) r h = (id, h)

  visit-own :
      (id : String) (names : List String) (r : ExperimentRecord F)
      → lacks 47 id ≡ true
      → get blobs json id s ≡ ok r
      → Memᴰ r (Visited (state_name id ∷ names)).values
  unfolding visit
  visit-own id names r h found =
      rw (ends_with-state_name id, split-state_name id h, found) (Memᴰ.head refl)

  visit_complete :
      (names : List String) (id : String) (r : ExperimentRecord F)
      → lacks 47 id ≡ true
      → get blobs json id s ≡ ok r
      → (Visited names).ending ≡ ok tt
      → Memᴰ (state_name id) names
      → Memᴰ r (Visited names).values
  unfolding visit
  visit_complete [] id r h found ended m = absurd (Memᴰ.not-nil m)
  visit_complete (name ∷ names) id r h found ended (Memᴰ.head same) =
      subst (λ x. Memᴰ r (Visited (x ∷ names)).values) same (visit-own id names r h found)
  visit_complete (name ∷ names) id r h found ended (Memᴰ.tail rest) =
      let (behind, further) = next_tail (ends_with name "/state.json") _ (Visited names) r ended in
      further (visit_complete names id r h found behind rest)

  visit_sound :
      (names : List String) (r : ExperimentRecord F)
      → Memᴰ r (Visited names).values
      → (id : String) × (get blobs json id s ≡ ok r)
  unfolding visit
  visit_sound [] r m = absurd (Memᴰ.not-nil m)
  visit_sound (name ∷ names) r m =
      elim (next_sound (ends_with name "/state.json") _ (Visited names) r m) [
        | inl found ↦ get_part-ok _ r found
        | inr rest ↦ visit_sound names r rest
      ]

  unless_failing_found :
      (id : String) (r : ExperimentRecord F) (failure : Option Error)
      (o : Option (String × blobs.Tag))
      → record_of blobs json (unless_failing blobs json failure (parsed blobs json id o)) ≡ ok r
      → is_some o ≡ true
  unless_failing_found id r (some e) o h = absurd (err-ne-ok h)
  unless_failing_found id r none none h = absurd (err-ne-ok h)
  unless_failing_found id r none (some x) h = refl

  get-found :
      (id : String) (r : ExperimentRecord F)
      → get blobs json id s ≡ ok r
      → is_some (blobs.download (state_name id) s) ≡ true
  unfolding get get_with_etag
  get-found id r h = unless_failing_found id r _ _ h

  -- If the listing has every blob whose name begins with the prefix: an `iter_records` that no
  -- exception ends yields the record of every experiment that `get` finds, for ids without a slash;
  -- and it yields nothing that `get` does not find, also where an exception ends it.
  pub iter_records-IsComplete :
      ((prefix name : String)
        → starts_with name prefix ≡ true
        → is_some (blobs.download name s) ≡ true
        → Memᴰ name (list_blobs prefix s))
      → let found = iter_records blobs json list_blobs s in
        (found.ending ≡ ok tt
          → (id : String) (r : ExperimentRecord F) → lacks 47 id ≡ true
          → get blobs json id s ≡ ok r
          → Memᴰ r found.values)
        × ((r : ExperimentRecord F)
            → Memᴰ r found.values
            → (id : String) × (get blobs json id s ≡ ok r))
  unfolding iter_records
  iter_records-IsComplete listed = (
    λ ended id r h found. visit_complete (list_blobs "experiments/" s) id r h found ended (
        listed "experiments/" (state_name id)
          (starts_with-append "experiments/" (id ++ "/state.json")) (get-found id r found)),
    visit_sound (list_blobs "experiments/" s),
  )
