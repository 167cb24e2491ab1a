-- ===== src/Double.antt =====
-- Python's `float`: the operations that the platform uses, as an interface, with the laws of
-- comparison that some of its behaviour rests on. IEEE 754 numbers other than NaN meet them.
use azure_ml_optimization_pl.Base.{
  ℕ, ◌+◌, ◌*◌, ◌/◌, ◌^◌, ◌≡◌, ◌⊎◌, Bool, true, false, arith, ◌==◌, if◌then◌else◌, List,
}
use azure_ml_optimization_pl.Base.Int.{ℤ, pos, pos_part, neg_part, ltb_ℤ, ◌+ℤ◌, ◌-ℤ◌, ◌*ℤ◌}
use mathlib.Core.List.{foldl}

pub record Double (F : Type 0) : Type 0 where
  -- `literal m k` is the float nearest to m / 10 ^ k.
  pub literal : ℕ → ℕ → F
  pub inf : F
  pub lt : F → F → Bool
  pub eq : F → F → Bool
  pub add : F → F → F
  pub sub : F → F → F
  pub mul : F → F → F
  pub div : F → F → F
  pub neg : F → F
  pub square : F → F
  pub exp : F → F
  -- The builtin `sum`, which does not round like repeated addition.
  pub sum : List F → F
  -- `int(x)`, and 0 where `x` is below 0.
  pub to_int : F → ℕ

module _ {F : Type 0} ⦃d : Double F⦄ where
  -- Python's `min(a, b)` keeps the first argument unless the second is smaller; so `max`.
  abbrev pub min_float : F → F → F
  min_float a b = if d.lt b a then b else a

  abbrev pub max_float : F → F → F
  max_float a b = if d.lt a b then b else a

-- What holds of `<` and `==` between floats other than NaN.
pub record IsOrdered (F : Type 0) ⦃d : Double F⦄ : Type 0 where
  pub lt_irrefl : (a : F) → d.lt a a ≡ false
  pub lt_trans : (a b c : F) → d.lt a b ≡ true → d.lt b c ≡ true → d.lt a c ≡ true
  pub lt_total : (a b : F) → (d.lt a b ≡ true) ⊎ (a ≡ b) ⊎ (d.lt b a ≡ true)
  pub eq_sound : (a b : F) → d.eq a b ≡ true → a ≡ b
  pub eq_refl : (a : F) → d.eq a a ≡ true

-- The interface and its laws can be met: decimal fixed point with four places. `exp` is the
-- constant 1, and `inf` a number above all that the tests use.
abbrev pub scale : ℕ
scale = 10000

abbrev quotient : ℕ → ℕ → ℤ
quotient a b = pos (a / b)

instance abbrev pub fixed_point : Double ℤ
fixed_point = record {
  literal = λ m k. pos (m * scale / 10 ^ k);
  inf = pos (10 ^ 30);
  lt = ltb_ℤ;
  eq = λ a b. pos_part a + neg_part b == pos_part b + neg_part a;
  add = λ a b. a +ℤ b;
  sub = λ a b. a -ℤ b;
  mul = λ a b. quotient (pos_part (a *ℤ b)) scale -ℤ quotient (neg_part (a *ℤ b)) scale;
  div = λ a b. quotient (pos_part a * scale) (pos_part b);
  neg = λ a. pos 0 -ℤ a;
  square = λ a. quotient (pos_part (a *ℤ a)) scale;
  exp = λ a. pos scale;
  sum = foldl ◌+ℤ◌ (pos 0);
  to_int = λ a. pos_part a / scale;
}

pub fixed_point-IsOrdered : IsOrdered ℤ
fixed_point-IsOrdered = record {
  lt_irrefl = λ a. ground arith;
  lt_trans = λ a b c p q. ground arith;
  lt_total = λ a b. ground arith;
  eq_sound = λ a b p. ground arith;
  eq_refl = λ a. ground arith;
}
