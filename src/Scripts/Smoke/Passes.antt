-- ===== src/Scripts/Smoke/Passes.antt =====
-- The whole of scripts/smoke_stack.py on fuel, and its evidence.
use Prim.{absurd}
use azure_ml_optimization_pl.Base.{
  ◌∙◌, ap, ℕ, suc, ◌≤◌, ◌≡◌, ◌≢◌, refl, sym, subst, Bool, true, false, Option, none, some, arith,
}
use azure_ml_optimization_pl.Double.{Double}
use azure_ml_optimization_pl.Errors.{Result, ok, err, other}
use azure_ml_optimization_pl.Exec.{Exec, pure, ◌>>=◌}
use azure_ml_optimization_pl.Exec.Ensures.{Ensures, EndsIn, Ensures-bind, Ensures-weaken}
use azure_ml_optimization_pl.Scripts.Json.{
  Json, item, elements, to_list, array, cons, nil, null, boolean, number, string, object, is_string,
  truthy,
}
use azure_ml_optimization_pl.Scripts.Smoke.{
  Arguments, Step, Script, Polled, reached, timed_out, out_of_fuel, Evidence, clock, poll, left_in,
  behind, check_tracking, check_results, main, main_from, search_query, get_experiment,
}
use azure_ml_optimization_pl.Scripts.Answers.{
  has_ended, any_finished, length_of, has_candidate, costs_rise,
}
use azure_ml_optimization_pl.Scripts.Smoke.Stops.{
  Ensures-required, Anything, Reach, given, then_any, then_required, then_assert, fetch-Reach,
  fetch_item-Reach, poll-Ended,
}

module _ {F : Type 0} ⦃d : Double F⦄ where
  length_of-pos : (v : Json F) (n : ℕ) → truthy v ≡ true → length_of v ≡ ok n → 1 ≤ n
  unfolding truthy elements to_list
  length_of-pos (array nil) n t h = cc t
  length_of-pos (array (cons y ys)) n t h = ground (arith, h)
  length_of-pos null n t h = cc t
  length_of-pos (boolean b) n t h = cc h
  length_of-pos (number x) n t h = cc h
  length_of-pos (string y) n t h = cc h
  length_of-pos (object fs) n t h = cc h

  has_candidate-truthy :
      (metrics recommendation : Json F)
      → has_candidate metrics recommendation ≡ ok true
      → truthy metrics ≡ true
  unfolding has_candidate
  has_candidate-truthy metrics recommendation h = ground arith

  left_in-none :
      (before : Result (Json F)) (p : Polled F) → left_in before p ≡ ok none → p ≡ out_of_fuel
  left_in-none before out_of_fuel h = refl
  left_in-none before (reached state) h = cc
  left_in-none before (timed_out (some state)) h = cc
  left_in-none (ok state) (timed_out none) h = cc
  left_in-none (err e) (timed_out none) h = cc

  -- What the evidence says.
  pub record IsPassed (e : Evidence F) : Type 0 where
    pub completed : is_string "completed" e.status ≡ true
    pub measured : 1 ≤ e.metric_points

  abbrev pub Passed : Option (Evidence F) → Script F → Type 0
  Passed o s = (e : Evidence F) × (o ≡ some e) × IsPassed e

  -- Behind a loop that ended, its fuel was not out.
  behind-Passed :
      (before : Result (Json F)) (p : Polled F) (found : Option (Json F))
      (go : Json F → Exec (Script F) (Option (Evidence F)))
      → p ≢ out_of_fuel
      → left_in before p ≡ ok found
      → ((state : Json F) → Ensures Anything Anything (go state) Passed)
      → Ensures Anything Anything (behind found go) Passed
  behind-Passed before p none go ended h k = absurd (ended (left_in-none before p h))
  behind-Passed before p (some state) go ended h k = k state

module _ {F : Type 0} ⦃d : Double F⦄ (outside : ℕ → Step F) (timeout : F) (n : ℕ) where
  -- From the n-th reading on, the time is over for a script that started at `started`.
  abbrev pub IsOver : (started : F) → Type 0
  IsOver started = (k : ℕ) → n ≤ k → d.lt (d.sub (outside k).monotonic started) timeout ≡ false

module _ {F : Type 0} ⦃d : Double F⦄ (outside : ℕ → Step F) (timeout : F) (args : Arguments)
    (n : ℕ) where
  search_query-Reach :
      (m : ℕ) (id experiment : Json F)
      → Ensures Anything (Reach m) (search_query outside id experiment) (λ r. Reach m)
  unfolding search_query
  search_query-Reach m id experiment =
      Ensures-bind _ _ (λ t. Reach m)
        (Ensures-weaken _ _ _ (λ t s h. h.0) (Ensures-required (item "experiment_id" experiment)))
        λ tracking_id. fetch_item-Reach outside m _ "runs"

  then_poll :
      {B : Type 0} {R : B → Script F → Type 0} (started : F) (query : Exec (Script F) (Json F))
      (test : Json F → Result Bool) (f : Polled F → Exec (Script F) B)
      → IsOver outside timeout n started
      → ((m : ℕ) → Ensures Anything (Reach m) query (λ r. Reach m))
      → ((p : Polled F) → p ≢ out_of_fuel → Ensures Anything Anything (f p) R)
      → Ensures Anything Anything (poll outside timeout started query test (suc n) none >>= f) R
  then_poll started query test f over grows k =
      Ensures-bind _ f (λ p s. p ≢ out_of_fuel)
        (record {
          at = λ s h.
              (poll-Ended outside timeout started n over query test grows n 0 none (omega arith)).at
                s (omega arith);
        })
        (λ p. given (f p) (k p))

  module _ (started : F) (over : IsOver outside timeout n started) (id state metrics : Json F) where
    check_tracking-Passed :
        (status : Json F)
        → item "status" state ≡ ok status
        → is_string "completed" status ≡ true
        → truthy metrics ≡ true
        → Ensures Anything Anything
            (check_tracking outside timeout (suc n) args started id state metrics)
            Passed
    unfolding check_tracking pure
    check_tracking-Passed status found completed filled = then_any _ _ λ experiment.
        then_poll started _ any_finished _ over (λ m. search_query-Reach m id experiment)
          λ p ended. then_required _ _ λ left h.
            behind-Passed (ok (array nil)) p left _ ended h λ runs. then_required _ _ λ finished e.
              then_assert _ _ λ passed. then_required (item "status" state) _ λ again same.
                then_required _ _ λ points counted. then_any _ _ λ now.
                  (let kept : again ≡ status = cc (same, found) in
                    record {
                      at = λ s h. (
                        _,
                        refl,
                        record {
                          completed =
                              subst (λ x. is_string "completed" x ≡ true) (sym kept) completed;
                          measured = length_of-pos metrics points filled counted;
                        },
                      );
                    })

  module _ (started : F) (over : IsOver outside timeout n started) (id state : Json F) where
    check_results-Passed :
        Ensures Anything Anything
          (check_results outside timeout (suc n) args started id state)
          Passed
    unfolding check_results
    check_results-Passed = then_required (item "status" state) _ λ status found.
        then_assert _ _ λ completed. then_any _ _ λ metrics. then_any _ _ λ recommendation.
          then_required (has_candidate metrics recommendation) _ λ chosen picked.
            then_assert chosen _ λ truth. then_required (elements metrics) _ λ points listed.
              then_required (costs_rise points) _ λ rising checked. then_assert rising _ λ rises.
                then_any _ _ λ invalid. then_assert _ _ λ refused.
                  check_tracking-Passed started over id state metrics status found completed
                    (has_candidate-truthy metrics recommendation (picked ∙ ap ok truth))

  main_from-Passed :
      (started : F)
      → IsOver outside timeout n started
      → Ensures Anything Anything (main_from outside timeout (suc n) args started) Passed
  unfolding main_from
  main_from-Passed started over = then_any _ _ λ ready. then_any _ _ λ submitted.
      then_assert _ _ λ accepted. then_required (item "experiment_id" submitted.body) _ λ id named.
        then_poll started _ has_ended _ over (λ m. fetch-Reach outside m (get_experiment id))
          λ p ended. then_required _ _ λ last h.
            behind-Passed (err (other "UnboundLocalError")) p last _ ended h
              λ state. check_results-Passed started over id state

  -- If the clock is over the timeout from its n-th reading on, whatever the API and the tracking
  -- server answer: with n + 1 units of fuel for each polling loop the script ends, with an exception
  -- or with evidence of a completed experiment that has metrics; it never runs out of fuel.
  pub main-Passed :
      (s : Script F)
      → IsOver outside timeout n (outside s.step).monotonic
      → EndsIn Anything Passed
          (main outside timeout (suc n) args s).0
          (main outside timeout (suc n) args s).1
  unfolding main ◌>>=◌ clock
  main-Passed s over = (main_from-Passed (outside s.step).monotonic over).at _ tt
