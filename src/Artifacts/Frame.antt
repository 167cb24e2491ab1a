-- ===== src/Artifacts/Frame.antt =====
-- The points of the convergence plot beside its frame.
use azure_ml_optimization_pl.Base.{
  ℕ, ◌+◌, ◌<◌, ◌^◌, ◌≡◌, Bool, true, false, Bool-cases, inl, inr, List, [], ◌∷◌, All, arith,
}
use azure_ml_optimization_pl.Double.{Double, IsOrdered, min_float, max_float}
use azure_ml_optimization_pl.Artifacts.{
  min_of, max_of, span, plot_x, plot_y, plot_all, firsts, seconds, coords,
}

module _ {F : Type 0} ⦃d : Double F⦄ where
  open d use {literal, lt, add, sub, mul, div}

  abbrev pub Le : F → F → Type 0
  Le a b = lt b a ≡ false

  abbrev pub Between : (low high a : F) → Type 0
  Between low high a = Le low a × Le a high

  -- What the operations do to bounds, where no difference overflows: rounding keeps the order, and
  -- is exact on small whole numbers.
  pub record IsGradual (finite : F → Bool) : Type 0 where
    pub unit_positive : lt (literal 0 0) (literal 1 0) ≡ true
    pub unit_finite : finite (literal 1 0) ≡ true
    pub offset :
        (a b c : F)
        → finite (sub b c) ≡ true
        → Between c b a
        → Between (literal 0 0) (sub b c) (sub a c)
    pub ratio :
        (a s : F)
        → finite s ≡ true
        → lt (literal 0 0) s ≡ true
        → Between (literal 0 0) s a
        → Between (literal 0 0) (literal 1 0) (div a s)
    pub scaled :
        (w : ℕ) (a : F)
        → w < 2 ^ 52
        → Between (literal 0 0) (literal 1 0) a
        → Between (literal 0 0) (literal w 0) (mul a (literal w 0))
    pub raised :
        (m w : ℕ) (a : F)
        → m + w < 2 ^ 52
        → Between (literal 0 0) (literal w 0) a
        → Between (literal m 0) (literal (m + w) 0) (add (literal m 0) a)
    pub lowered :
        (m w : ℕ) (a : F)
        → m + w < 2 ^ 52
        → Between (literal 0 0) (literal w 0) a
        → Between (literal m 0) (literal (m + w) 0) (sub (literal (m + w) 0) a)

  module _ (ordered : IsOrdered F) (finite : F → Bool) (gradual : IsGradual finite) where
    open ordered use {lt_irrefl, lt_trans, lt_total, eq_sound, eq_refl}

    Le-trans : (a b c : F) → Le a b → Le b c → Le a c
    Le-trans a b c h k = elim (Bool-cases (lt c a)) [
      | inr e ↦ e
      | inl e ↦ elim (lt_total a b) [
        | inl l ↦ cc (lt_trans c a b e l, k)
        | inr (inl s) ↦ cc (s, k)
        | inr (inr g) ↦ cc (g, h)
      ]
    ]

    Le-refl : (a : F) → Le a a
    Le-refl a = lt_irrefl a

    Le-lt : (a b : F) → lt a b ≡ true → Le a b
    Le-lt a b h = elim (Bool-cases (lt b a)) [
      | inr e ↦ e
      | inl e ↦ cc (lt_trans a b a h e, lt_irrefl a)
    ]

    min_float-Le : (a b : F) → Le (min_float a b) a × Le (min_float a b) b
    min_float-Le a b = elim (Bool-cases (lt b a)) [
      | inl e ↦ rw e (Le-lt b a e, Le-refl b)
      | inr e ↦ rw e (Le-refl a, e)
    ]

    max_float-Le : (a b : F) → Le a (max_float a b) × Le b (max_float a b)
    max_float-Le a b = elim (Bool-cases (lt a b)) [
      | inl e ↦ rw e (Le-lt a b e, Le-refl b)
      | inr e ↦ rw e (Le-refl a, e)
    ]

    min_of-Le : (x : F) (xs : List F) → Le (min_of x xs) x × All (Le (min_of x xs)) xs
    unfolding min_of
    min_of-Le x [] = (Le-refl x, tt)
    min_of-Le x (y ∷ ys) =
        let (least, rest) = min_of-Le (min_float x y) ys in
        let (left, right) = min_float-Le x y in
        (Le-trans _ _ _ least left, (Le-trans _ _ _ least right, rest))

    max_of-Le : (x : F) (xs : List F) → Le x (max_of x xs) × All (λ y. Le y (max_of x xs)) xs
    unfolding max_of
    max_of-Le x [] = (Le-refl x, tt)
    max_of-Le x (y ∷ ys) =
        let (most, rest) = max_of-Le (max_float x y) ys in
        let (left, right) = max_float-Le x y in
        (Le-trans _ _ _ left most, (Le-trans _ _ _ right most, rest))

    positive :
        (s : F) → d.eq s (literal 0 0) ≡ false → Le (literal 0 0) s → lt (literal 0 0) s ≡ true
    positive s nonzero h = elim (lt_total (literal 0 0) s) [
      | inl l ↦ l
      | inr (inl e) ↦ cc (e, nonzero, eq_refl s)
      | inr (inr g) ↦ cc (g, h)
    ]

    -- The part of the way from the least value to the greatest.
    part :
        (low high a : F)
        → finite (sub high low) ≡ true
        → Between low high a
        → Between (literal 0 0) (literal 1 0) (div (sub a low) (span low high))
    unfolding span
    part low high a bounded (above, below) =
        let inside = gradual.offset a high low bounded (above, below) in
        let whole =
          gradual.offset high high low bounded (Le-trans low a high above below, Le-refl high) in
        elim (Bool-cases (d.eq (sub high low) (literal 0 0))) [
          | inl zero ↦
              let at_zero : Le (sub a low) (literal 0 0) = cc (inside.1, eq_sound _ _ zero) in
              rw zero (
                gradual.ratio (sub a low) (literal 1 0) gradual.unit_finite gradual.unit_positive
                  (inside.0, Le-trans _ _ _ at_zero (Le-lt _ _ gradual.unit_positive)))
          | inr nonzero ↦ rw nonzero (
              gradual.ratio (sub a low) (sub high low) bounded
                (positive (sub high low) nonzero whole.0) inside)
        ]

    plot_x-Between :
        (low high a : F)
        → finite (sub high low) ≡ true
        → Between low high a
        → Between (literal 50 0) (literal 750 0) (plot_x low (span low high) a)
    unfolding plot_x
    plot_x-Between low high a bounded h =
        gradual.raised 50 700 _ (omega arith)
          (gradual.scaled 700 _ (omega arith) (part low high a bounded h))

    plot_y-Between :
        (low high a : F)
        → finite (sub high low) ≡ true
        → Between low high a
        → Between (literal 50 0) (literal 370 0) (plot_y low (span low high) a)
    unfolding plot_y
    plot_y-Between low high a bounded h =
        gradual.lowered 50 320 _ (omega arith)
          (gradual.scaled 320 _ (omega arith) (part low high a bounded h))

    -- A point in the frame: between 50 and 750 from the left, and 50 and 370 from the top.
    abbrev pub InFrame : F × F → Type 0
    InFrame (x, y) =
        Between (literal 50 0) (literal 750 0) x × Between (literal 50 0) (literal 370 0) y

    plot_all-InFrame :
        (xmin xmax ymin ymax : F)
        → finite (sub xmax xmin) ≡ true
        → finite (sub ymax ymin) ≡ true
        → (points : List (F × F)) → All (Le xmin) (firsts points)
        → All (λ x. Le x xmax) (firsts points)
        → All (Le ymin) (seconds points)
        → All (λ y. Le y ymax) (seconds points)
        → All InFrame (plot_all xmin (span xmin xmax) ymin (span ymin ymax) points)
    plot_all-InFrame xmin xmax ymin ymax fx fy [] a b e f = tt
    plot_all-InFrame xmin xmax ymin ymax fx fy ((x, y) ∷ points) (a, more_a) (b, more_b) (e, more_e)
          (f, more_f) =
        (
          (plot_x-Between xmin xmax x fx (a, b), plot_y-Between ymin ymax y fy (e, f)),
          plot_all-InFrame xmin xmax ymin ymax fx fy points more_a more_b more_e more_f,
        )

    -- The differences of the greatest and the least values do not overflow.
    abbrev pub IsBounded : List (F × F) → Type 0
    IsBounded [] = Unit
    IsBounded ((x, y) ∷ points) =
        (finite (sub (max_of x (firsts points)) (min_of x (firsts points))) ≡ true)
        × (finite (sub (max_of y (seconds points)) (min_of y (seconds points))) ≡ true)

    -- Given the order laws of the floats and what the operations do to bounds: if the differences
    -- of the greatest and the least values do not overflow, every point of the plot lies in its
    -- frame, between 50 and 750 from the left and between 50 and 370 from the top.
    pub coords-InFrame : (points : List (F × F)) → IsBounded points → All InFrame (coords points)
    unfolding coords
    coords-InFrame [] h = tt
    coords-InFrame ((x, y) ∷ points) (fx, fy) =
        plot_all-InFrame _ _ _ _ fx fy ((x, y) ∷ points) (min_of-Le x (firsts points))
          (max_of-Le x (firsts points)) (min_of-Le y (seconds points))
          (max_of-Le y (seconds points))
