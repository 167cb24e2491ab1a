-- ===== src/Examples/Listings.antt =====
-- The listing of a container whose blobs are a dict, with the number of the last write as the ETag.
use Prim.{absurd}
use azure_ml_optimization_pl.Base.{
  ℕ, suc, String, str_eq, eq_iff, ◌≡◌, ◌≢◌, refl, ◌==◌, Dict, lookup, insert, lookup-insert_self,
  true, Option, none, some, List, [], ◌∷◌, map, arith, if◌then◌else◌, lacks, Bool-cases, inl, inr,
  sym, false,
}
use mathlib.Core.List.{Memᴰ}
use azure_ml_optimization_pl.Base.Int.{ℤ}
use azure_ml_optimization_pl.Errors.{Error, ok}
use azure_ml_optimization_pl.Domain.{ExperimentRecord}
use azure_ml_optimization_pl.Protocol.Record.{is_some}
use azure_ml_optimization_pl.Repository.Blob.{
  Upload, stored, refused, failed, Container, Codec, get,
}
use azure_ml_optimization_pl.Repository.Blob.Listing.{iter_records}
use azure_ml_optimization_pl.Repository.Blob.Listing.Complete.{iter_records-IsComplete}
use azure_ml_optimization_pl.Examples.Data.{queued_record}

abbrev Blobs : Type 0
Blobs = Dict (String × ℕ)

abbrev replaced : String → String → ℕ → Option (String × ℕ) → Blobs → Upload Blobs
replaced name content tag none s = refused
replaced name content tag (some (old, number)) s =
    if number == tag then stored (insert name (content, suc number) s) else refused

abbrev added : String → String → Option (String × ℕ) → Blobs → Upload Blobs
added name content (some old) s = refused
added name content none s = stored (insert name (content, 0) s)

replaced_tag :
    (name content : String) (tag : ℕ) (there : Option (String × ℕ)) (s t : Blobs)
    → replaced name content tag there s ≡ stored t
    → (old : String) × (there ≡ some (old, tag))
replaced_tag name content tag none s t h = cc
replaced_tag name content tag (some (old, number)) s t h = (old, ground arith)

replaced_content :
    (name content : String) (tag : ℕ) (there : Option (String × ℕ)) (s t : Blobs)
    → replaced name content tag there s ≡ stored t
    → (new : ℕ) × (lookup name t ≡ some (content, new))
replaced_content name content tag none s t h = cc
replaced_content name content tag (some (old, number)) s t h =
    (suc number, ground (arith, lookup-insert_self name (content, suc number) s))

added_absent :
    (name content : String) (there : Option (String × ℕ)) (s t : Blobs)
    → added name content there s ≡ stored t
    → there ≡ none
added_absent name content none s t h = refl
added_absent name content (some old) s t h = cc

added_content :
    (name content : String) (there : Option (String × ℕ)) (s t : Blobs)
    → added name content there s ≡ stored t
    → (new : ℕ) × (lookup name t ≡ some (content, new))
added_content name content none s t h = (0, ground (arith, lookup-insert_self name (content, 0) s))
added_content name content (some old) s t h = cc

added_exists :
    (name content : String) (there : Option (String × ℕ)) (s : Blobs)
    → added name content there s ≡ refused
    → (old : String × ℕ) × (there ≡ some old)
added_exists name content none s h = cc
added_exists name content (some old) s h = (old, refl)

replaced_failed :
    (name content : String) (tag : ℕ) (there : Option (String × ℕ)) (s : Blobs) (e : Error)
    (t : Blobs)
    → replaced name content tag there s ≢ failed e t
replaced_failed name content tag none s e t h = cc h
replaced_failed name content tag (some (old, number)) s e t h = ground (arith, h)

added_failed :
    (name content : String) (there : Option (String × ℕ)) (s : Blobs) (e : Error) (t : Blobs)
    → added name content there s ≢ failed e t
added_failed name content none s e t h = cc h
added_failed name content (some old) s e t h = cc h

-- No blob has another content under the same tag.
abbrev Later : Blobs → Blobs → Type 0
Later s t =
    (name a b : String) (tag : ℕ)
    → lookup name s ≡ some (a, tag)
    → lookup name t ≡ some (b, tag)
    → a ≡ b

abbrev blobs : Container
blobs = record {
  State = Blobs;
  Tag = ℕ;
  Later = Later;
  create_container = λ s. (ok tt, s);
  is_exists_error = λ e. false;
  first_page = λ s. (ok [], s);
  download = λ name s. lookup name s;
  download_error = λ name s. none;
  replace = λ name content tag s. replaced name content tag (lookup name s) s;
  upload_new = λ name content s. added name content (lookup name s) s;
  upload_new_absent = λ name content s t h. added_absent name content (lookup name s) s t h;
  upload_new_content = λ name content s t h. added_content name content (lookup name s) s t h;
  upload_new_exists = λ name content s h. added_exists name content (lookup name s) s h;
  upload_new_failed =
      λ name content s e t h. absurd (added_failed name content (lookup name s) s e t h);
  replace_failed =
      λ name content tag s e t h. absurd (replaced_failed name content tag (lookup name s) s e t h);
  replace_tag = λ name content tag s t h. replaced_tag name content tag (lookup name s) s t h;
  replace_content =
      λ name content tag s t h. replaced_content name content tag (lookup name s) s t h;
  tag_content = λ name a b tag s t later h k. later name a b tag h k;
}

abbrev json : Codec ℤ
json = record { encode = λ r. "{}"; decode = λ content. ok queued_record }

-- Two blobs of one experiment.
abbrev content : Blobs
content = ("experiments/e1/state.json", ("{}", 0)) ∷ ("experiments/e1/metrics.json", ("[]", 0)) ∷ []

-- All names, whatever the prefix is.
abbrev list_all : (name_starts_with : String) → Blobs → List String
list_all prefix s = map (λ e. e.0) s

keys_there :
    (name : String) (s : Blobs) → is_some (lookup name s) ≡ true → Memᴰ name (map (λ e. e.0) s)
unfolding lookup
keys_there name [] h = cc h
keys_there name ((j, v) ∷ s) h = elim (Bool-cases (str_eq j name)) [
  | inl same ↦ Memᴰ.head (sym ((eq_iff j name).0 same))
  | inr apart ↦ Memᴰ.tail (keys_there name s (ground (arith, h, apart)))
]

iter_records-IsComplete_example :
    let found = iter_records blobs json list_all content in
    (found.ending ≡ ok tt
      → (id : String) (r : ExperimentRecord ℤ) → lacks 47 id ≡ true
      → get blobs json id content ≡ ok r
      → Memᴰ r found.values)
    × ((r : ExperimentRecord ℤ)
        → Memᴰ r found.values
        → (id : String) × (get blobs json id content ≡ ok r))
iter_records-IsComplete_example =
    iter_records-IsComplete blobs json list_all content
      (λ prefix name begins there. keys_there name content there)
