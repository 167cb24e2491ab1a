-- ===== src/Examples/Plots.antt =====
-- A plot of three points, in decimal fixed point.
use azure_ml_optimization_pl.Base.{
  ℕ, ◌*◌, ◌/◌, ◌≤◌, ◌≡◌, refl, Bool, true, List, [], ◌∷◌, All, arith,
}
use azure_ml_optimization_pl.Base.Int.{ℤ, pos, negsuc, ◌+ℤ◌, ◌-ℤ◌, ◌*ℤ◌, ltb_ℤ, pos_part, neg_part}
use azure_ml_optimization_pl.Double.{fixed_point, fixed_point-IsOrdered, scale}
use native.Mathlib.Nat.{div-le_of_le-mul, mul-le-mul_right}
use azure_ml_optimization_pl.Artifacts.{coords}
use azure_ml_optimization_pl.Artifacts.Frame.{IsGradual, Between, InFrame, coords-InFrame}

abbrev always : ℤ → Bool
always a = true

offset_fixed : (a b c : ℤ) → Between c b a → Between (pos 0) (b -ℤ c) (a -ℤ c)
unfolding ◌-ℤ◌
offset_fixed a b c h = ground (arith, h)

ratio_fixed :
    (a s : ℤ)
    → ltb_ℤ (pos 0) s ≡ true
    → Between (pos 0) s a
    → Between (pos 0) (pos scale) (fixed_point.div a s)
ratio_fixed a s p h =
    let below : pos_part a ≤ pos_part s = ground (arith, h, p) in
    let bound = div-le_of_le-mul (pos_part s) (mul-le-mul_right scale below) in
    (ground arith, ground (arith, bound))

pos_product : (m x : ℕ) → pos m *ℤ pos x ≡ pos (m * x)
unfolding ◌*ℤ◌
pos_product m x = ground arith

scaled_fixed :
    (x : ℕ) (a : ℤ)
    → Between (pos 0) (pos scale) a
    → Between
        (pos 0)
        (pos x)
        (pos (pos_part (a *ℤ pos x) / scale) -ℤ pos (neg_part (a *ℤ pos x) / scale))
unfolding ◌-ℤ◌
scaled_fixed x (pos m) h =
    let low : m ≤ scale = ground (arith, h) in
    let bound = div-le_of_le-mul scale (mul-le-mul_right x low) in
    rw (pos_product m x) (ground (arith, bound))
scaled_fixed x (negsuc m) h = ground (arith, h)

fixed_point-IsGradual : IsGradual always
fixed_point-IsGradual = record {
  unit_positive = refl;
  unit_finite = refl;
  offset = λ a b c f h. offset_fixed a b c h;
  ratio = λ a s f p h. ratio_fixed a s p h;
  scaled = λ w a f h. scaled_fixed (w * scale / 1) a h;
  raised = λ m w a f h. unfold ◌+ℤ◌ in ground (arith, h);
  lowered = λ m w a f h. unfold ◌-ℤ◌ in ground (arith, h);
}

abbrev three_points : List (ℤ × ℤ)
three_points = (pos 10000, pos 30000) ∷ (pos 20000, pos 25000) ∷ (pos 30000, pos 25000) ∷ []

coords-InFrame_example :
    All (InFrame fixed_point-IsOrdered always fixed_point-IsGradual) (coords three_points)
coords-InFrame_example =
    coords-InFrame fixed_point-IsOrdered always fixed_point-IsGradual three_points (refl, refl)
