-- ===== src/Examples/Blobs.antt =====
-- `mutate` on a container with one blob, whose versions are the upload contents, newest first.
use Prim.{absurd}
use azure_ml_optimization_pl.Base.{
  ℕ, suc, String, ◌≡◌, refl, ◌⊎◌, str_eq, Option, none, some, List, [], ◌∷◌, ◌++◌, arith, length,
  length-append, ◌==◌, if◌then◌else◌, Bool-cases, inl, inr, zero, false,
}
use azure_ml_optimization_pl.Base.Int.{ℤ}
use azure_ml_optimization_pl.Double.{fixed_point}
use azure_ml_optimization_pl.Errors.{Error, ok, other}
use azure_ml_optimization_pl.Repository.Blob.{
  Upload, stored, refused, failed, Container, Codec, Others, mutate, create,
}
use azure_ml_optimization_pl.Repository.Blob.Mutate.{Outcome, mutate-Outcome}
use azure_ml_optimization_pl.Repository.Blob.Create.{Creation, create-Creation}
use azure_ml_optimization_pl.Service.Changes.{cancel}
use azure_ml_optimization_pl.Examples.Data.{at_second, queued_record}

abbrev newest : String → List String → Option (String × ℕ)
newest name [] = none
newest name (x ∷ xs) = some (x, length xs)

-- An upload of the text `slow` takes effect and raises.
abbrev upload : String → String → ℕ → List String → Upload (List String)
upload name content tag [] = refused
upload name content tag (x ∷ xs) =
    if length xs == tag
    then if str_eq content "slow"
      then failed (other "timeout") (content ∷ x ∷ xs)
      else stored (content ∷ x ∷ xs)
    else refused

abbrev Extends : List String → List String → Type 0
Extends s t = (new : List String) × (t ≡ new ++ s)

newest_same :
    (name a b : String) (tag : ℕ) (s t : List String)
    → Extends s t
    → newest name s ≡ some (a, tag)
    → newest name t ≡ some (b, tag)
    → a ≡ b
newest_same name a b tag [] t e h k = cc
newest_same name a b tag (x ∷ s) t ([], e) h k = cc
newest_same name a b tag (x ∷ s) [] (n ∷ new, e) h k = cc
newest_same name a b tag (x ∷ s) (y ∷ t) (n ∷ new, e) h k =
    ground (arith, length-append new (x ∷ s))

upload_tag :
    (name content : String) (tag : ℕ) (s t : List String)
    → upload name content tag s ≡ stored t
    → (old : String) × (newest name s ≡ some (old, tag))
upload_tag name content tag [] t h = cc
upload_tag name content tag (x ∷ s) t h = (x, ground arith)

upload_content :
    (name content : String) (tag : ℕ) (s t : List String)
    → upload name content tag s ≡ stored t
    → (new : ℕ) × (newest name t ≡ some (content, new))
upload_content name content tag [] t h = cc
upload_content name content tag (x ∷ s) t h = (suc (length s), ground arith)

upload_failed :
    (name content : String) (tag : ℕ) (s : List String) (e : Error) (t : List String)
    → upload name content tag s ≡ failed e t
    → (t ≡ s)
      ⊎ (((old : String) × (newest name s ≡ some (old, tag)))
          × ((new : ℕ) × (newest name t ≡ some (content, new))))
upload_failed name content tag [] e t h = cc
upload_failed name content tag (x ∷ s) e t h =
    inr ((x, ground arith), (suc (length s), ground arith))

abbrev first_upload : String → String → List String → Upload (List String)
first_upload name content [] =
    if str_eq content "slow" then failed (other "timeout") (content ∷ []) else stored (content ∷ [])
first_upload name content (x ∷ xs) = refused

first_upload_absent :
    (name content : String) (s t : List String)
    → first_upload name content s ≡ stored t
    → newest name s ≡ none
first_upload_absent name content [] t h = refl
first_upload_absent name content (x ∷ s) t h = cc

first_upload_content :
    (name content : String) (s t : List String)
    → first_upload name content s ≡ stored t
    → (new : ℕ) × (newest name t ≡ some (content, new))
first_upload_content name content [] t h = (zero, ground arith)
first_upload_content name content (x ∷ s) t h = cc

first_upload_exists :
    (name content : String) (s : List String)
    → first_upload name content s ≡ refused
    → (old : String × ℕ) × (newest name s ≡ some old)
first_upload_exists name content [] h = absurd (ground (arith, h))
first_upload_exists name content (x ∷ s) h = ((x, length s), refl)

first_upload_failed :
    (name content : String) (s : List String) (e : Error) (t : List String)
    → first_upload name content s ≡ failed e t
    → (t ≡ s) ⊎ ((newest name s ≡ none) × ((new : ℕ) × (newest name t ≡ some (content, new))))
first_upload_failed name content [] e t h = inr (refl, (zero, ground arith))
first_upload_failed name content (x ∷ s) e t h = cc

abbrev versions : Container
versions = record {
  State = List String;
  Tag = ℕ;
  Later = Extends;
  create_container = λ s. (ok tt, s);
  is_exists_error = λ e. false;
  first_page = λ s. (ok [], s);
  download = newest;
  download_error = λ name s. none;
  replace = upload;
  replace_failed = upload_failed;
  upload_new_failed = first_upload_failed;
  upload_new = first_upload;
  upload_new_absent = first_upload_absent;
  upload_new_content = first_upload_content;
  upload_new_exists = first_upload_exists;
  replace_tag = upload_tag;
  replace_content = upload_content;
  tag_content = newest_same;
}

-- A record is its experiment's name.
abbrev pub names : Codec ℤ
names = record {
  encode = λ r. r.experiment_id;
  decode = λ s. ok (record queued_record { experiment_id = s });
}

-- Another writer comes between the first read and its upload, so that the second try succeeds.
abbrev intrude : ℕ → List String → List String
intrude n s = if n == 4 then "e2" ∷ s else s

intrude_later : (n : ℕ) (s : List String) → Extends s (intrude n s)
intrude_later n s = elim (Bool-cases (n == 4)) [
  | inl hit ↦ ("e2" ∷ [], rw hit refl)
  | inr miss ↦ ([], rw miss refl)
]

abbrev one_intruder : Others versions names
one_intruder = record { before = λ n s. s; between = intrude; times = at_second }

mutate-Outcome_example :
    Outcome versions names one_intruder "e1" cancel
      ("e1" ∷ [])
      (mutate versions names one_intruder "e1" cancel ("e1" ∷ []))
mutate-Outcome_example =
    mutate-Outcome versions names one_intruder "e1" cancel intrude_later ("e1" ∷ [])

create-Creation_example :
    Creation versions names queued_record [] (create versions names queued_record [])
create-Creation_example = create-Creation versions names queued_record [] refl
