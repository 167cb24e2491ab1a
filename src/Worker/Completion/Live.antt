-- ===== src/Worker/Completion/Live.antt =====
-- The callbacks of `process` in a calm environment, while the worker holds the lease.
use azure_ml_optimization_pl.Base.{
  ◌≡◌, refl, Bool, true, false, Option, none, some, String, Dict, ◌∙◌,
}
use Prim.{absurd}
use azure_ml_optimization_pl.Double.{Double}
use azure_ml_optimization_pl.Domain.{ExperimentRecord, EngineResult, MetricPoint, Value}
use azure_ml_optimization_pl.Engine.{
  Run, finished, raised, reports, asks_cancelled, asks_stop, reads_clock,
}
use azure_ml_optimization_pl.Engine.Finishing.{Finishes}
use azure_ml_optimization_pl.Repository.{Times}
use azure_ml_optimization_pl.Protocol.{marks, points, runs}
use azure_ml_optimization_pl.Exec.{Exec, pure}
use azure_ml_optimization_pl.Exec.Ensures.{
  Ensures, Keeps, Ensures-bind, Ensures-weaken, Ensures-pure, Ensures-gets, Ensures-raise_if,
  Ensures-if,
}
use azure_ml_optimization_pl.World.{World, Context, Settlement}
use azure_ml_optimization_pl.World.Calm.{
  Never, Has, IsCalm, bumped, next_turn-Has, call-Has, fetch-Has, update-Has,
  Ensures-attempt_handled, calm-Keeps,
}
use azure_ml_optimization_pl.World.Kept.{IsLogged}
use azure_ml_optimization_pl.Tracking.Kept.{metric-Kept}
use azure_ml_optimization_pl.Worker.Process.{
  track, record_metric, check_cancelled, interpret, store_run, put_artifacts,
}
use azure_ml_optimization_pl.Worker.Completion.{IsInTime, IsRunning}
use azure_ml_optimization_pl.Worker.Completion.Steps.{
  same-IsRunning, points-Gives, runs-Gives, marks-Gives, held_lease,
}

pub returned :
    {F A : Type 0} {P : World F → Type 0} {Q : A → World F → Type 0} (a : A)
    → ((w : World F) → P w → Q a w)
    → Ensures Never P (pure a) Q
unfolding pure
returned a k = record { at = k }

-- A value that is known to be false.
with_false :
    {F A : Type 0} {P : World F → Type 0} {Q : A → World F → Type 0} (b : Bool)
    (m : Bool → Exec (World F) A)
    → Ensures Never P (m false) Q
    → Ensures Never (λ w. P w × (b ≡ false)) (m b) Q
with_false true m k = record { at = λ w h. cc h.1 }
with_false false m k = record { at = λ w h. k.at w h.0 }

module _ {F : Type 0} ⦃d : Double F⦄ (c : Context F) (calm : IsCalm c) (in_time : IsInTime c) where
  module _ (P : ExperimentRecord F → Type 0) (A : Option Settlement → Type 0) where
    pub Has-IsLogged : IsLogged c (Has c P A)
    Has-IsLogged = record {
      calls = λ x other. calm-Keeps _ (call-Has c calm P A x);
      tracker = λ active run_id w h. record {
        stored = h.stored;
        found = h.found;
        good = h.good;
        acting = h.acting;
        unlost = h.unlost;
        unstopped = h.unstopped;
      };
    }

    pub track-Has :
        (m : Exec (World F) (Option String))
        → ((x : ExperimentRecord F) (md : Dict (Value F)) (t : Times)
            → P x
            → P (bumped t (record x { result_metadata = md })))
        → Keeps (Has c P A) m
        → Ensures Never (Has c P A) (track c m) (λ r. Has c P A)
    unfolding track
    track-Has m closed k = Ensures-attempt_handled m _ k λ e.
        Ensures-bind _ _ (λ r. Has c P A)
          (Ensures-weaken _ _ _ (λ r w h. h.0)
            (update-Has c calm P A (marks c.owner) P (marks-Gives c P closed)))
          λ r. Ensures-pure none

  abbrev pub Anything : Option Settlement → Type 0
  Anything a = Unit

  abbrev pub Live : World F → Type 0
  Live = Has c (IsRunning c) Anything

  pub track-Live :
      (m : Exec (World F) (Option String))
      → Keeps Live m
      → Ensures Never Live (track c m) (λ r. Live)
  track-Live m k =
      track-Has (IsRunning c) Anything m
        (λ x md t h. same-IsRunning c x _ refl refl refl refl refl h) k

  pub record_metric-Live : (m : MetricPoint F) → Ensures Never Live (record_metric c m) (λ r. Live)
  unfolding record_metric
  record_metric-Live m =
      Ensures-bind _ _ (λ r. Live)
        (Ensures-weaken _ _ _ (λ r w h. h.0)
          (update-Has c calm (IsRunning c) Anything (points c.owner m) (IsRunning c)
            (points-Gives c m)))
        λ r. track-Live _ (metric-Kept c Live (Has-IsLogged (IsRunning c) Anything) m)

  pub check_cancelled-Live : Ensures Never Live (check_cancelled c) (λ b w. Live w × (b ≡ false))
  unfolding check_cancelled
  check_cancelled-Live = Ensures-bind _ _ _ (Ensures-gets _) λ lost.
      Ensures-bind _ _ (λ _. Live)
        (Ensures-weaken _ _ _ (λ _ w h. h.0) (Ensures-raise_if lost _ λ w h. h.1 ∙ h.0.unlost))
        λ _. Ensures-bind _ _ _ (fetch-Has c calm (IsRunning c) Anything) λ (r, now).
          Ensures-bind _ _ _
            (Ensures-raise_if _ _ λ w (live, good, (n, e)). rw e (held_lease c r n good))
            λ _. returned r.cancel_requested λ w (live, good, at). (live, good.wanted)

  -- The answers of the callbacks are those of a run that goes on.
  pub interpret-Live :
      (P : EngineResult F → Type 0) (engine : Run F)
      → Finishes P engine
      → Ensures Never Live (interpret c engine) (λ result w. Live w × P result)
  unfolding interpret
  interpret-Live P (finished result) h = returned result λ w live. (live, h)
  interpret-Live P (raised e) h = absurd h
  interpret-Live P (reports m rest) h =
      Ensures-bind _ _ (λ _. Live) (record_metric-Live m) λ _. interpret-Live P rest h
  interpret-Live P (asks_cancelled rest) h =
      Ensures-bind _ _ _ check_cancelled-Live
        λ b. with_false b (λ x. interpret c (rest x)) (interpret-Live P (rest false) h)
  interpret-Live P (asks_stop rest) h =
      Ensures-bind _ _ (λ _. Live) (next_turn-Has c calm (IsRunning c) Anything)
        λ t.
          Ensures-bind _ _ (λ b w. Live w × (b ≡ false))
            (Ensures-weaken _ _ _ (λ b w h. (h.0, h.1 ∙ h.0.unstopped)) (Ensures-gets _))
            λ b. with_false b (λ x. interpret c (rest x)) (interpret-Live P (rest false) h)
  interpret-Live P (reads_clock rest) h =
      Ensures-bind _ _ (λ _. Live) (next_turn-Has c calm (IsRunning c) Anything)
        λ t. interpret-Live P (rest t.times.changed_at) (h t.times.changed_at)

  pub store_run-Live :
      (run_id : Option String) → Ensures Never Live (store_run c run_id) (λ _. Live)
  unfolding store_run
  store_run-Live none = returned tt λ w h. h
  store_run-Live (some run_id) = Ensures-if _ _ _ (returned tt λ w h. h) (
      Ensures-bind _ _ (λ r. Live)
        (Ensures-weaken _ _ _ (λ r w h. h.0)
          (update-Has c calm (IsRunning c) Anything (runs c.owner run_id) (IsRunning c)
            (runs-Gives c run_id)))
        λ r. returned tt λ w h. h)

  pub put_artifacts-Live : Ensures Never Live (put_artifacts c) (λ _. Live)
  unfolding put_artifacts
  put_artifacts-Live =
      let put = call-Has c calm (IsRunning c) Anything in
      Ensures-bind _ _ (λ _. Live) (put _)
        λ _.
          Ensures-bind _ _ (λ _. Live) (put _)
            λ _. Ensures-bind _ _ (λ _. Live) (put _) λ _. returned _ λ w h. h
