-- ===== src/Scripts/Json.antt =====
-- The JSON values that the scripts read, and how Python's code takes them apart.
use azure_ml_optimization_pl.Base.{
  String, str_eq, Bool, true, false, not, Option, none, some, List, [], ◌∷◌, if◌then◌else◌,
}
use azure_ml_optimization_pl.Double.{Double}
use azure_ml_optimization_pl.Errors.{Result, ok, err, other}

mutual
  pub data Json (F : Type 0) : Type 0 where
    null : Json F
    boolean : Bool → Json F
    number : F → Json F
    string : String → Json F
    array : Items F → Json F
    object : Fields F → Json F

  pub data Items (F : Type 0) : Type 0 where
    nil : Items F
    cons : Json F → Items F → Items F

  pub data Fields (F : Type 0) : Type 0 where
    end : Fields F
    field : String → Json F → Fields F → Fields F

module _ {F : Type 0} where
  -- The last value of a key counts.
  unfoldable pub find_field : String → Fields F → Option (Json F)
  find_field key end = none
  find_field key (field k v fs) = elim (find_field key fs) [
    | some later ↦ some later
    | none ↦ if str_eq k key then some v else none
  ]

  abbrev found_or_raise : String → Option (Json F) → Result (Json F)
  found_or_raise key none = err (other key)
  found_or_raise key (some v) = ok v

  -- `value[key]`
  unfoldable pub item : String → Json F → Result (Json F)
  item key (object fs) = found_or_raise key (find_field key fs)
  item key _ = err (other "TypeError")

  unfoldable pub to_list : Items F → List (Json F)
  to_list nil = []
  to_list (cons x xs) = x ∷ to_list xs

  -- The values of a list, in a loop over it.
  unfoldable pub elements : Json F → Result (List (Json F))
  elements (array xs) = ok (to_list xs)
  elements _ = err (other "TypeError")

  -- `value == "text"`
  unfoldable pub is_string : String → Json F → Bool
  is_string s (string t) = str_eq t s
  is_string s _ = false

  abbrev pub as_number : Json F → Result F
  as_number (number x) = ok x
  as_number _ = err (other "TypeError")

module _ {F : Type 0} ⦃d : Double F⦄ where
  -- The truth value.
  unfoldable pub truthy : Json F → Bool
  truthy null = false
  truthy (boolean b) = b
  truthy (number x) = not (d.eq x (d.literal 0 0))
  truthy (string s) = not (str_eq s "")
  truthy (array nil) = false
  truthy (array (cons x xs)) = true
  truthy (object end) = false
  truthy (object (field k v fs)) = true
