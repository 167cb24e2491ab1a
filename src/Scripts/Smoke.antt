-- ===== src/Scripts/Smoke.antt =====
-- scripts/smoke_stack.py: `main`, over an arbitrary API, tracking server and clock.
pub mod Stops
pub mod Passes
use azure_ml_optimization_pl.Base.{
  ℕ, zero, suc, ◌+◌, String, Bool, true, false, not, ◌&&◌, ◌||◌, leb, ltb, ◌==◌, Option, none, some,
  List, [], ◌∷◌, ◌++◌, length, if◌then◌else◌,
}
use azure_ml_optimization_pl.Double.{Double}
use azure_ml_optimization_pl.Errors.{Error, Result, ok, err, other}
use azure_ml_optimization_pl.Exec.{Exec, pure, raise, raise_if, ◌>>=◌, ◌>>◌}
use azure_ml_optimization_pl.Scripts.Answers.{
  has_ended, any_finished, length_of, costs_rise, has_candidate,
}
use azure_ml_optimization_pl.Scripts.Json.{
  Json, array, nil, item, elements, is_string, as_number, truthy,
}

pub record Arguments : Type 0 where
  pub strategy : String
  pub benchmark : String
  pub iterations : ℕ

pub record Response (F : Type 0) : Type 0 where
  pub status_code : ℕ
  pub body : Json F

-- The requests, with what they depend on. An id is a value of an earlier answer.
pub data Request (F : Type 0) : Type 0 where
  get_ready : Request F
  submit : Arguments → Request F
  get_experiment get_metrics get_recommendation : (experiment_id : Json F) → Request F
  -- The configuration with the budget -1.
  submit_invalid : Arguments → Request F
  get_by_name : Request F
  search_runs : (tracking_id experiment_id : Json F) → Request F

-- The environment at a step of the script: the clock, or the end of a request.
pub record Step (F : Type 0) : Type 0 where
  pub monotonic : F
  pub response : Result (Response F)

pub record Script (F : Type 0) : Type 0 where
  pub step : ℕ
  pub exchanges : List (Request F × Result (Response F))

-- How a polling loop ends: with a value that passed its test, or by the clock, with the last value.
pub data Polled (F : Type 0) : Type 0 where
  reached : Json F → Polled F
  timed_out : (last : Option (Json F)) → Polled F
  out_of_fuel : Polled F

-- What the script writes and prints, but for the time of day and the constant `mlflow_finished`.
pub record Evidence (F : Type 0) : Type 0 where
  pub status : Json F
  pub metric_points : ℕ
  pub elapsed_seconds : F

abbrev pub required : {S A : Type 0} → Result A → Exec S A
required (ok a) s = (ok a, s)
required (err e) s = (err e, s)

-- `assert`
abbrev pub assert : {S : Type 0} → Bool → Exec S (Unit {0})
assert b = raise_if (not b) (other "AssertionError")

module _ {F : Type 0} ⦃d : Double F⦄ (outside : ℕ → Step F) where
  -- `time.monotonic()`
  unfoldable pub clock : Exec (Script F) F
  clock s = (ok (outside s.step).monotonic, record s { step = s.step + 1 })

  unfoldable pub ask : Request F → Exec (Script F) (Response F)
  ask x s =
      let r = (outside s.step).response in
      (r, record s { step = s.step + 1; exchanges = s.exchanges ++ (x, r) ∷ [] })

  -- `raise_for_status().json()`
  unfoldable pub fetch : Request F → Exec (Script F) (Json F)
  fetch x = do
    r ← ask x
    raise_if (ltb r.status_code 200 || leb 300 r.status_code) (other "HTTPStatusError")
    pure r.body

  unfoldable pub fetch_item : Request F → (key : String) → Exec (Script F) (Json F)
  fetch_item x key = fetch x >>= λ body. required (item key body)

  -- `while time.monotonic() - started < timeout`, with one unit of fuel for each pass.
  module _ (timeout started : F) (query : Exec (Script F) (Json F))
      (test : Json F → Result Bool) where
    abbrev pub stop_or : Bool → Json F → Exec (Script F) (Polled F) → Exec (Script F) (Polled F)
    stop_or true state again s = (ok (reached state), s)
    stop_or false state again s = again s

    abbrev pub pass_or :
        Bool → Option (Json F) → Exec (Script F) (Polled F) → Exec (Script F) (Polled F)
    pass_or true last go s = go s
    pass_or false last go s = (ok (timed_out last), s)

    unfoldable pub poll : (fuel : ℕ) → (last : Option (Json F)) → Exec (Script F) (Polled F)
    poll zero last = pure out_of_fuel
    poll (suc fuel) last = clock >>= λ now. pass_or (d.lt (d.sub now started) timeout) last (
        query >>= λ state.
        required (test state) >>= λ stop. stop_or stop state (poll fuel (some state)))

module _ {F : Type 0} where
  -- The value that a loop leaves in its variable, which has `before` as its first one.
  abbrev pub left_in : (before : Result (Json F)) → Polled F → Result (Option (Json F))
  left_in before out_of_fuel = ok none
  left_in before (reached state) = ok (some state)
  left_in before (timed_out (some state)) = ok (some state)
  left_in (ok state) (timed_out none) = ok (some state)
  left_in (err e) (timed_out none) = err e

  -- The statements behind a loop, which are not reached where the fuel is out.
  abbrev pub behind :
      {A : Type 0}
      → Option (Json F)
      → (Json F → Exec (Script F) (Option A))
      → Exec (Script F) (Option A)
  behind none go s = (ok none, s)
  behind (some state) go s = go state s

module _ {F : Type 0} ⦃d : Double F⦄ (outside : ℕ → Step F) where
  -- One search of the runs.
  unfoldable pub search_query : (id experiment : Json F) → Exec (Script F) (Json F)
  search_query id experiment = required (item "experiment_id" experiment) >>= λ tracking_id.
      fetch_item outside (search_runs tracking_id id) "runs"

  module _ (timeout : F) (fuel : ℕ) (args : Arguments) where
    -- The second `with` block and the evidence.
    unfoldable pub check_tracking :
        (started : F) → (id state metrics : Json F) → Exec (Script F) (Option (Evidence F))
    check_tracking started id state metrics = do
      experiment ← fetch_item outside get_by_name "experiment"
      polled ← poll outside timeout started (search_query id experiment) any_finished fuel none
      found ← required (left_in (ok (array nil)) polled)
      behind found λ runs. do
        finished ← required (any_finished runs)
        assert finished
        status ← required (item "status" state)
        points ← required (length_of metrics)
        now ← clock outside
        pure (
            some (record {
              status = status;
              metric_points = points;
              elapsed_seconds = d.sub now started;
            }))

    -- The first `with` block behind its loop.
    unfoldable pub check_results :
        (started : F) → (id state : Json F) → Exec (Script F) (Option (Evidence F))
    check_results started id state = do
      status ← required (item "status" state)
      assert (is_string "completed" status)
      metrics ← fetch_item outside (get_metrics id) "metrics"
      recommendation ← fetch outside (get_recommendation id)
      chosen ← required (has_candidate metrics recommendation)
      assert chosen
      points ← required (elements metrics)
      rising ← required (costs_rise points)
      assert rising
      invalid ← ask outside (submit_invalid args)
      assert (invalid.status_code == 422)
      check_tracking started id state metrics

    -- The statements behind the first reading of the clock; none where the fuel of a loop is out.
    unfoldable pub main_from : (started : F) → Exec (Script F) (Option (Evidence F))
    main_from started = do
      ready ← fetch outside get_ready
      submitted ← ask outside (submit args)
      assert (submitted.status_code == 202)
      id ← required (item "experiment_id" submitted.body)
      polled ← poll outside timeout started (fetch outside (get_experiment id)) has_ended fuel none
      last ← required (left_in (err (other "UnboundLocalError")) polled)
      behind last λ state. check_results started id state

    unfoldable pub main : Exec (Script F) (Option (Evidence F))
    main = clock outside >>= λ started. main_from started
