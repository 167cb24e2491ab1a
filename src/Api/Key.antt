-- ===== src/Api/Key.antt =====
-- The header `Idempotency-Key`: a full match of `[A-Za-z0-9._:-]{1,128}`.
use Prim.Native.Char.{code}
use Prim.Native.String.{String, [], ◌∷◌, count}
use azure_ml_optimization_pl.Base.{ℕ, ltb, Bool, true, ◌&&◌, ◌||◌, leb, ◌==◌}

abbrev between : ℕ → ℕ → ℕ → Bool
between low high n = leb low n && leb n high

-- The character class: letters, digits, and the codes of `-`, `.`, `:` and `_`.
abbrev allowed : ℕ → Bool
allowed n =
    between 65 90 n
    || between 97 122 n
    || between 48 57 n
    || n == 45
    || n == 46
    || n == 58
    || n == 95

all_allowed : String → Bool
all_allowed [] = true
all_allowed (c ∷ s) = allowed (code c) && all_allowed s

unfoldable pub is_key : String → Bool
unfolding all_allowed
is_key s = between 1 128 (count s) && all_allowed s

unfoldable pub is_ascii : String → Bool
is_ascii [] = true
is_ascii (c ∷ s) = ltb (code c) 128 && is_ascii s
