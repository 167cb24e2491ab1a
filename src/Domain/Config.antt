-- ===== src/Domain/Config.antt =====
-- The validation of a submitted configuration: the field constraints of `ExperimentConfig` and its
-- validator `validate_fidelities`.
use Prim.Native.String.{count}
use azure_ml_optimization_pl.Base.{
  ◌^◌, ◌-◌, String, str_eq, Bool, true, false, not, ◌&&◌, ◌||◌, List, [], ◌∷◌, ltb, leb,
  if◌then◌else◌, length, every, last_or,
}
use azure_ml_optimization_pl.Double.{Double}
use azure_ml_optimization_pl.Errors.{Result, ok, other, check}
use azure_ml_optimization_pl.Domain.{ExperimentConfig}

unfoldable pub tag_fits : String × String → Bool
tag_fits (k, v) = leb (count k) 64 && leb (count v) 256

module _ {F : Type 0} ⦃d : Double F⦄ where
  -- One element put into `sorted(set(...))` of the others.
  unfoldable pub insert_unique : F → List F → List F
  insert_unique x [] = x ∷ []
  insert_unique x (y ∷ ys) =
      if d.eq x y then y ∷ ys else if d.lt x y then x ∷ y ∷ ys else y ∷ insert_unique x ys

  unfoldable pub sorted_set : List F → List F
  sorted_set [] = []
  sorted_set (x ∷ xs) = insert_unique x (sorted_set xs)

  -- `==` of two lists.
  unfoldable pub list_eq : List F → List F → Bool
  list_eq [] [] = true
  list_eq (x ∷ xs) (y ∷ ys) = d.eq x y && list_eq xs ys
  list_eq _ _ = false

  unfoldable pub in_unit : F → Bool
  in_unit value =
      d.lt (d.literal 0 0) value && (d.lt value (d.literal 1 0) || d.eq value (d.literal 1 0))

  unfoldable pub validate_fidelities : ExperimentConfig F → Result (ExperimentConfig F)
  validate_fidelities c =
      check (not (every in_unit c.fidelities)) (other "fidelities must be in the interval (0, 1]") (
        check (not (list_eq c.fidelities (sorted_set c.fidelities)))
          (other "fidelities must be unique and strictly increasing")
          (check (not (d.eq (last_or (d.literal 0 0) c.fidelities) (d.literal 1 0)))
            (other "the highest fidelity must be 1.0")
            (check (ltb 20 (length c.tags) || not (every tag_fits c.tags))
              (other "tags are limited to 20 entries of 64/256 characters") (ok c))))

  -- The constraints in the `Field` calls and the `Literal` types.
  at_most : F → F → Bool
  at_most a b = d.lt a b || d.eq a b

  unfoldable pub field_constraints : ExperimentConfig F → Bool
  unfolding at_most
  field_constraints c =
      str_eq c.benchmark "hartmann6"
      && str_eq c.strategy "random"
      && at_most (d.literal 10 0) c.budget
      && at_most c.budget (d.literal 1000000 0)
      && leb 2 (length c.fidelities)
      && leb (length c.fidelities) 5
      && leb c.seed (2 ^ 32 - 1)
      && leb 1 c.max_iterations
      && leb c.max_iterations 2000

  unfoldable pub validate : ExperimentConfig F → Result (ExperimentConfig F)
  validate c = check (not (field_constraints c)) (other "validation error") (validate_fidelities c)
