-- ===== src/Repository/Blob/Listing.antt =====
-- `iter_records` of the blob repository, where no other process writes meanwhile. The listing of a
-- container is a parameter.
pub mod Complete
use azure_ml_optimization_pl.Base.{
  String, ◌≡◌, ◌↔◌, Bool, true, false, List, [], ◌∷◌, get_elem?, Option, none, some, starts_with,
  ends_with, split, if◌then◌else◌,
}
use azure_ml_optimization_pl.Protocol.Record.{is_some}
use azure_ml_optimization_pl.Errors.{Error, Result, ok, err, other}
use azure_ml_optimization_pl.Domain.{ExperimentRecord}
use azure_ml_optimization_pl.Repository.Blob.{Container, Codec, get, state_name}

-- A generator that has ended: what it yielded, and whether an exception ended it.
pub record Yielded (A : Type 0) : Type 0 where
  pub values : List A
  pub ending : Result (Unit {0})

abbrev pub yields : {A : Type 0} → A → Yielded A → Yielded A
yields a y = record y { values = a ∷ y.values }

module _ {F : Type 0} (blobs : Container) (json : Codec F)
    (list_blobs : (name_starts_with : String) → blobs.State → List String) where
  open blobs use {State}

  abbrev pub yield_next :
      Result (ExperimentRecord F) → Yielded (ExperimentRecord F) → Yielded (ExperimentRecord F)
  yield_next (ok r) rest = yields r rest
  yield_next (err e) rest = record { values = []; ending = err e }

  -- `self.get(item.name.split("/")[1])`
  abbrev pub get_part : Option String → State → Result (ExperimentRecord F)
  get_part none s = err (other "IndexError")
  get_part (some id) s = get blobs json id s

  unfoldable pub visit : List String → State → Yielded (ExperimentRecord F)
  visit [] s = record { values = []; ending = ok tt }
  visit (name ∷ names) s =
      let rest = visit names s in
      if ends_with name "/state.json"
      then yield_next (get_part (get_elem? (split name 47) 1) s) rest
      else rest

  unfoldable pub iter_records : State → Yielded (ExperimentRecord F)
  iter_records s = visit (list_blobs "experiments/" s) s
