-- ===== src/Scripts/Answers.antt =====
-- How scripts/smoke_stack.py reads the answers of the API and of the tracking server.
use azure_ml_optimization_pl.Base.{ℕ, Bool, true, false, ◌||◌, List, [], ◌∷◌, length, if◌then◌else◌}
use azure_ml_optimization_pl.Double.{Double}
use azure_ml_optimization_pl.Errors.{Result, ok, err}
use azure_ml_optimization_pl.Scripts.Json.{Json, item, elements, is_string, as_number, truthy}

-- `any` stops at the first run that has finished.
abbrev pub any_of : Result Bool → Result Bool → Result Bool
any_of (err e) rest = err e
any_of (ok true) rest = ok true
any_of (ok false) rest = rest

abbrev pub all_of : Result Bool → Result Bool → Result Bool
all_of (err e) rest = err e
all_of (ok false) rest = ok false
all_of (ok true) rest = rest

module _ {F : Type 0} ⦃d : Double F⦄ where
  -- `state["status"] in {"completed", "cancelled", "failed"}`
  unfoldable pub has_ended : Json F → Result Bool
  has_ended state = elim (item "status" state) [
    | err e ↦ err e
    | ok status ↦
        ok (
          is_string "completed" status || is_string "cancelled" status || is_string "failed" status)
  ]

  abbrev pub is_finished : Json F → Result Bool
  is_finished run = elim (item "info" run) [
    | err e ↦ err e
    | ok info ↦ elim (item "status" info) [
      | err e ↦ err e
      | ok status ↦ ok (is_string "FINISHED" status)
    ]
  ]

  unfoldable pub any_finished_in : List (Json F) → Result Bool
  any_finished_in [] = ok false
  any_finished_in (run ∷ runs) = any_of (is_finished run) (any_finished_in runs)

  unfoldable pub any_finished : Json F → Result Bool
  any_finished runs = elim (elements runs) [ err e ↦ err e | ok list ↦ any_finished_in list ]

  -- `b["cumulative_cost"] >= a["cumulative_cost"]`, of numbers.
  abbrev pub at_least : Result F → Result F → Result Bool
  at_least (err e) a = err e
  at_least (ok b) (err e) = err e
  at_least (ok b) (ok a) = ok (d.lt a b || d.eq a b)

  abbrev pub cost_of : Json F → Result F
  cost_of point = elim (item "cumulative_cost" point) [ err e ↦ err e | ok v ↦ as_number v ]

  unfoldable pub costs_rise : List (Json F) → Result Bool
  costs_rise [] = ok true
  costs_rise (a ∷ []) = ok true
  costs_rise (a ∷ b ∷ points) = all_of (at_least (cost_of b) (cost_of a)) (costs_rise (b ∷ points))

  -- `metrics and recommendation["recommendation"]["candidate"]`
  unfoldable pub has_candidate : (metrics recommendation : Json F) → Result Bool
  has_candidate metrics recommendation =
      if truthy metrics
      then elim (item "recommendation" recommendation) [
        | err e ↦ err e
        | ok inner ↦ elim (item "candidate" inner) [ err e ↦ err e | ok v ↦ ok (truthy v) ]
      ]
      else ok false

  abbrev pub length_of : Json F → Result ℕ
  length_of v = elim (elements v) [ err e ↦ err e | ok xs ↦ ok (length xs) ]
