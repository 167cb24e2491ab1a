-- ===== src/Domain/Accepts.antt =====
-- `validate_fidelities` of domain.py beside the order of the fidelities.
use Prim.Native.String.{count}
use azure_ml_optimization_pl.Base.{
  ◌≤◌, String, ◌≡◌, refl, sym, ap, subst, ◌∙◌, ◌↔◌, ◌⊎◌, inl, inr, Bool-cases, true, List, [], ◌∷◌,
  arith, length, every, last_or, All, every_iff,
}
use azure_ml_optimization_pl.Double.{Double, IsOrdered}
use azure_ml_optimization_pl.Errors.{ok}
use azure_ml_optimization_pl.Domain.{ExperimentConfig}
use azure_ml_optimization_pl.Domain.Config.{
  insert_unique, sorted_set, list_eq, in_unit, tag_fits, validate_fidelities,
}

module _ {F : Type 0} ⦃d : Double F⦄ where
  -- Each element is below the next.
  abbrev pub Increasing : List F → Type 0
  Increasing [] = Unit
  Increasing (x ∷ []) = Unit
  Increasing (x ∷ y ∷ ys) = (d.lt x y ≡ true) × Increasing (y ∷ ys)

  abbrev pub Head : F → List F → Type 0
  Head x [] = Unit
  Head x (y ∷ ys) = d.lt x y ≡ true

  Increasing-cons : (x : F) (ys : List F) → Head x ys → Increasing ys → Increasing (x ∷ ys)
  Increasing-cons x [] h i = tt
  Increasing-cons x (y ∷ ys) h i = (h, i)

  Increasing-tail : (x : F) (ys : List F) → Increasing (x ∷ ys) → Head x ys × Increasing ys
  Increasing-tail x [] i = (tt, tt)
  Increasing-tail x (y ∷ ys) i = i

  module _ (laws : IsOrdered F) where
    open laws use {lt_irrefl, lt_trans, lt_total, eq_sound, eq_refl}

    Head-insert_unique :
        (w x : F) (ys : List F) → d.lt w x ≡ true → Head w ys → Head w (insert_unique x ys)
    unfolding insert_unique
    Head-insert_unique w x [] h k = h
    Head-insert_unique w x (y ∷ ys) h k = ground arith

    insert_unique-Increasing :
        (x : F) (ys : List F) → Increasing ys → Increasing (insert_unique x ys)
    unfolding insert_unique
    insert_unique-Increasing x [] i = tt
    insert_unique-Increasing x (y ∷ ys) i = elim (Bool-cases (d.eq x y)) [
      | inl same ↦ rw same i
      | inr other ↦ elim (Bool-cases (d.lt x y)) [
        | inl below ↦ rw (other, below) (below, i)
        | inr above ↦
            rw (other, above)
              (let (h, k) = Increasing-tail y ys i in
                Increasing-cons y (insert_unique x ys)
                  (Head-insert_unique y x ys (ground (arith, lt_total x y, eq_refl x)) h)
                  (insert_unique-Increasing x ys k))
      ]
    ]

    sorted_set-Increasing : (xs : List F) → Increasing (sorted_set xs)
    unfolding sorted_set
    sorted_set-Increasing [] = tt
    sorted_set-Increasing (x ∷ xs) =
        insert_unique-Increasing x (sorted_set xs) (sorted_set-Increasing xs)

    insert_unique-least : (x : F) (ys : List F) → Head x ys → insert_unique x ys ≡ x ∷ ys
    unfolding insert_unique
    insert_unique-least x [] h = refl
    insert_unique-least x (y ∷ ys) h = ground (arith, eq_sound x y, lt_irrefl x)

    sorted_set-eq_of_Increasing : (xs : List F) → Increasing xs → sorted_set xs ≡ xs
    unfolding sorted_set
    sorted_set-eq_of_Increasing [] i = refl
    sorted_set-eq_of_Increasing (x ∷ xs) i =
        let (h, k) = Increasing-tail x xs i in
        ap (insert_unique x) (sorted_set-eq_of_Increasing xs k) ∙ insert_unique-least x xs h

    list_eq_refl : (xs : List F) → list_eq xs xs ≡ true
    unfolding list_eq
    list_eq_refl [] = refl
    list_eq_refl (x ∷ xs) = rw (eq_refl x, list_eq_refl xs)

    list_eq_sound : (xs ys : List F) → list_eq xs ys ≡ true → xs ≡ ys
    unfolding list_eq
    list_eq_sound [] [] h = refl
    list_eq_sound [] (y ∷ ys) h = cc
    list_eq_sound (x ∷ xs) [] h = cc
    list_eq_sound (x ∷ xs) (y ∷ ys) h = ground (arith, eq_sound x y, list_eq_sound xs ys)

    -- The validator's test passes exactly on the strictly increasing lists.
    sorted_set_iff : (xs : List F) → (list_eq xs (sorted_set xs) ≡ true) ↔ Increasing xs
    sorted_set_iff xs = (
      λ h. subst Increasing (sym (list_eq_sound xs (sorted_set xs) h)) (sorted_set-Increasing xs),
      λ i. rw (sorted_set-eq_of_Increasing xs i) (list_eq_refl xs),
    )

    -- The interval (0, 1].
    abbrev pub InUnit : F → Type 0
    InUnit v =
        (d.lt (d.literal 0 0) v ≡ true) × ((d.lt v (d.literal 1 0) ≡ true) ⊎ (v ≡ d.literal 1 0))

    abbrev pub TagFits : String × String → Type 0
    TagFits (k, v) = (count k ≤ 64) × (count v ≤ 256)

    pub record IsAccepted (c : ExperimentConfig F) : Type 0 where
      pub in_unit : All InUnit c.fidelities
      pub increasing : Increasing c.fidelities
      pub highest : last_or (d.literal 0 0) c.fidelities ≡ d.literal 1 0
      pub few_tags : length c.tags ≤ 20
      pub short_tags : All TagFits c.tags

    in_unit_iff : (v : F) → (in_unit v ≡ true) ↔ InUnit v
    unfolding in_unit
    in_unit_iff v = ground (arith, eq_sound v (d.literal 1 0), eq_refl (d.literal 1 0))

    tag_fits_iff : (e : String × String) → (tag_fits e ≡ true) ↔ TagFits e
    unfolding tag_fits
    tag_fits_iff (k, v) = ground arith

    passes_iff :
        (c : ExperimentConfig F)
        → (validate_fidelities c ≡ ok c) ↔ (
            (every in_unit c.fidelities ≡ true)
            × (list_eq c.fidelities (sorted_set c.fidelities) ≡ true)
            × (d.eq (last_or (d.literal 0 0) c.fidelities) (d.literal 1 0) ≡ true)
            × (length c.tags ≤ 20)
            × (every tag_fits c.tags ≡ true))
    unfolding validate_fidelities
    passes_iff c = ground arith

    -- Given the order laws of the floats, a configuration passes `validate_fidelities` exactly when
    -- its fidelities lie in (0, 1], rise strictly and end at 1, and it has at most 20 tags, with
    -- names of at most 64 and values of at most 256 characters.
    pub validate_fidelities_iff :
        (c : ExperimentConfig F) → (validate_fidelities c ≡ ok c) ↔ IsAccepted c
    validate_fidelities_iff c = (
      λ e.
          let (units, sorted, top, few, short) = (passes_iff c).0 e in
          record {
            in_unit = (every_iff in_unit InUnit in_unit_iff c.fidelities).0 units;
            increasing = (sorted_set_iff c.fidelities).0 sorted;
            highest = eq_sound _ _ top;
            few_tags = few;
            short_tags = (every_iff tag_fits TagFits tag_fits_iff c.tags).0 short;
          },
      λ a. (passes_iff c).1 (
        (every_iff in_unit InUnit in_unit_iff c.fidelities).1 a.in_unit,
        (sorted_set_iff c.fidelities).1 a.increasing,
        rw a.highest (eq_refl (d.literal 1 0)),
        a.few_tags,
        (every_iff tag_fits TagFits tag_fits_iff c.tags).1 a.short_tags,
      ),
    )
