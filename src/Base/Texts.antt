-- ===== src/Base/Texts.antt =====
-- Python's operations on texts: `len`, `startswith`, `endswith`, `replace` and `split`.
pub mod Segments
use Prim.Native.Nat.{ℕ, zero, suc, ◌-◌}
use Prim.Native.Char.{Char, code}
use Prim.Native.String.{String, ◌++◌}
use mathlib.Core.Path.{◌≡◌, refl}
use mathlib.Core.Bool.{Bool, true, false, ◌&&◌, ◌||◌}
use mathlib.Core.List.{List, [], ◌∷◌}
use azure_ml_optimization_pl.Base.Tests.{◌==◌, if◌then◌else◌}

abbrev pub characters : String → ℕ
characters String.[] = 0
characters (String.◌∷◌ c s) = suc (characters s)

unfoldable pub starts_with : (text prefix : String) → Bool
starts_with s String.[] = true
starts_with String.[] (String.◌∷◌ p ps) = false
starts_with (String.◌∷◌ c s) (String.◌∷◌ p ps) = code c == code p && starts_with s ps

abbrev pub same_text : String → String → Bool
same_text String.[] String.[] = true
same_text String.[] (String.◌∷◌ b t) = false
same_text (String.◌∷◌ a s) String.[] = false
same_text (String.◌∷◌ a s) (String.◌∷◌ b t) = code a == code b && same_text s t

unfoldable pub ends_with : (text suffix : String) → Bool
ends_with String.[] suffix = same_text String.[] suffix
ends_with (String.◌∷◌ c s) suffix = same_text (String.◌∷◌ c s) suffix || ends_with s suffix

module _ (old new : String) where
  -- The occurrences from the left, none inside another; `skipped` characters are still part of the
  -- last one.
  unfoldable pub replace_from : (skipped : ℕ) → String → String
  replace_from skipped String.[] = ""
  replace_from (suc n) (String.◌∷◌ c s) = replace_from n s
  replace_from zero (String.◌∷◌ c s) = elim (starts_with (String.◌∷◌ c s) old) [
    | true ↦ new ++ replace_from (characters old - 1) s
    | false ↦ String.◌∷◌ c (replace_from zero s)
  ]

-- `text.replace(old, new)`, for an `old` that is not empty.
unfoldable pub replace : (text old new : String) → String
replace text old new = replace_from old new 0 text

abbrev pub on_first : Char → List String → List String
on_first c [] = String.◌∷◌ c "" ∷ []
on_first c (word ∷ words) = String.◌∷◌ c word ∷ words

-- `text.split(separator)`, for a separator of one character, given by its code point.
unfoldable pub split : String → (separator : ℕ) → List String
split String.[] separator = "" ∷ []
split (String.◌∷◌ c s) separator =
    let words = split s separator in if code c == separator then "" ∷ words else on_first c words

-- A text without a character, given by its code point.
unfoldable pub lacks : (character : ℕ) → String → Bool
lacks n String.[] = true
lacks n (String.◌∷◌ c s) = elim (code c == n) [ true ↦ false | false ↦ lacks n s ]

replace_test : replace "a.blob.b.blob.c" ".blob." "-" ≡ "a-b-c"
unfolding replace replace_from starts_with
replace_test = refl

split_test : split "experiments/x/state.json" 47 ≡ "experiments" ∷ "x" ∷ "state.json" ∷ []
unfolding split
split_test = refl
