-- ===== src/Worker/Completion/Runs.antt =====
-- `process` in a calm environment.
use azure_ml_optimization_pl.Base.{
  ℕ, ◌≤◌, ◌≡◌, refl, true, false, Option, some, String, arith, Dict, ltb, List, lookup, [], ◌∷◌,
  ◌++◌,
}
use azure_ml_optimization_pl.Double.{Double}
use azure_ml_optimization_pl.Domain.{
  ExperimentConfig, ExperimentRecord, EngineResult, MetricPoint, Value, terminal,
}
use azure_ml_optimization_pl.Engine.{Run}
use azure_ml_optimization_pl.Engine.Finishing.{Finishes}
use azure_ml_optimization_pl.Exec.{modify}
use azure_ml_optimization_pl.Exec.Ensures.{
  Ensures, Ensures-bind, Ensures-weaken, Ensures-raise_if, Ensures-finally,
}
use azure_ml_optimization_pl.World.{World, Context, Settlement, ack, Call, acknowledge}
use azure_ml_optimization_pl.World.Calm.{
  Never, Has, IsCalm, next_turn-Has, call-Has, fetch-Has, update-Has, Ensures-attempt_calm,
  calm-state,
}
use azure_ml_optimization_pl.World.Quiet.{call_quiet, tick}
use azure_ml_optimization_pl.Tracking
use azure_ml_optimization_pl.Tracking.Kept.{start-Kept, finish-Kept, close-Kept}
use azure_ml_optimization_pl.Worker.Process.{
  track, conclude, work, under_lease, claim_and_work, deliver, settle, process, set_action,
  start_thread, stop_thread,
}
use azure_ml_optimization_pl.Worker.Completion.{IsInTime, IsRunning, IsFresh, IsCompleted}
use azure_ml_optimization_pl.Worker.Completion.Steps.{renews-Gives, claims-Gives, completes-Gives}
use azure_ml_optimization_pl.World.Over.{acknowledged}
use azure_ml_optimization_pl.Worker.Completion.Live.{
  returned, track-Live, check_cancelled-Live, interpret-Live, store_run-Live, put_artifacts-Live,
  Has-IsLogged, track-Has, Anything, Live,
}

acknowledged_last : {F : Type 0} (xs : List (Call F)) → acknowledged (xs ++ acknowledge ∷ []) ≡ true
acknowledged_last [] = refl
acknowledged_last (x ∷ xs) = ground (arith, acknowledged_last xs)

module _ {F : Type 0} ⦃d : Double F⦄ (c : Context F) (calm : IsCalm c) (in_time : IsInTime c) where
  abbrev Acknowledging : Option Settlement → Type 0
  Acknowledging a = a ≡ some ack

  module _ (P : EngineResult F → Type 0) where
    abbrev Done : World F → Type 0
    Done = Has c (IsCompleted c P) Acknowledging

    finish-Done :
        (status : String) (summary : Dict (Value F)) (metrics : List (MetricPoint F))
        → Ensures Never Done (track c (Tracking.finish c status summary metrics)) (λ _. Done)
    finish-Done status summary metrics =
        (track-Has c calm in_time) (IsCompleted c P) Acknowledging _
          (λ x md t h. record {
            status = h.status;
            result = h.result;
            good = h.good;
            recommended = h.recommended;
          })
          (finish-Kept c Done ((Has-IsLogged c calm in_time) (IsCompleted c P) Acknowledging) _ _ _)

    acknowledging :
        Ensures Never
          (Has c (IsCompleted c P) (Anything c calm in_time))
          (modify (set_action ack))
          (λ _. Done)
    unfolding modify
    acknowledging = record {
      at = λ w h. record {
        stored = h.stored;
        found = h.found;
        good = h.good;
        acting = refl;
        unlost = h.unlost;
        unstopped = h.unstopped;
      };
    }

    -- The job is completed, and then the action is to acknowledge the message.
    conclude-Done :
        (result : EngineResult F)
        → P result
        → Ensures Never (Live c calm in_time) (conclude c result) (λ _. Done)
    unfolding conclude
    conclude-Done result good = Ensures-bind _ _ _ (check_cancelled-Live c calm in_time) λ stop.
        Ensures-bind _ _ (λ _. (Live c calm in_time))
          (Ensures-weaken _ _ _ (λ _ w h. h.0) (Ensures-raise_if stop _ λ w h. h.1))
          λ _.
            Ensures-bind _ _ (λ _. (Live c calm in_time)) (put_artifacts-Live c calm in_time)
              λ uris.
                Ensures-bind _ _ (λ _. (Live c calm in_time))
                  (next_turn-Has c calm (IsRunning c) (Anything c calm in_time))
                  λ t.
                    Ensures-bind _ _ (λ r w. Has c (IsCompleted c P) (Anything c calm in_time) w)
                      (Ensures-weaken _ _ _ (λ r w h. h.0)
                        (update-Has c calm (IsRunning c) (Anything c calm in_time) _
                          (IsCompleted c P) (completes-Gives c P result uris t.elapsed good)))
                      λ r.
                        Ensures-bind _ _ (λ _. Done) acknowledging
                          λ _.
                            Ensures-bind _ _ (λ _. Done) (finish-Done _ _ _)
                              λ _. returned tt λ w h. h

    within : (m n : ℕ) → n ≤ m → ltb m n ≡ false
    within m n h = ground (arith, h)

    work-Done :
        (engine : ExperimentConfig F → Run F) (r : ExperimentRecord F)
        → IsRunning c r
        → Finishes P (engine r.configuration)
        → Ensures Never (Live c calm in_time) (work c engine r) (λ _. Done)
    unfolding work
    work-Done engine r h finishes =
        Ensures-bind _ _ (λ _. (Live c calm in_time)) (Ensures-raise_if _ _ λ w k. h.wanted)
          λ _.
            Ensures-bind _ _ (λ _. (Live c calm in_time))
              (Ensures-raise_if _ _ λ w k. within c.max_attempts r.attempts h.allowed)
              λ _.
                Ensures-bind _ _ (λ _. (Live c calm in_time))
                  ((track-Live c calm in_time) _ (
                    start-Kept c (Live c calm in_time)
                      ((Has-IsLogged c calm in_time) (IsRunning c) (Anything c calm in_time))
                      r.configuration))
                  λ run_id.
                    Ensures-bind _ _ (λ _. (Live c calm in_time))
                      ((store_run-Live c calm in_time) run_id)
                      λ _.
                        Ensures-bind _ _ _
                          ((interpret-Live c calm in_time) P (engine r.configuration) finishes)
                          λ result. record {
                            at = λ w (live, good). (conclude-Done result good).at w live;
                          }

    started : Ensures Never (Live c calm in_time) (modify start_thread) (λ _. (Live c calm in_time))
    unfolding modify
    started = record {
      at = λ w h. record {
        stored = h.stored;
        found = h.found;
        good = h.good;
        acting = tt;
        unlost = refl;
        unstopped = h.unstopped;
      };
    }

    stopped : (w : World F) → Done w → Done (stop_thread w)
    stopped w h = record {
      stored = h.stored;
      found = h.found;
      good = h.good;
      acting = h.acting;
      unlost = h.unlost;
      unstopped = h.unstopped;
    }

    under_lease-Done :
        (engine : ExperimentConfig F → Run F) (r : ExperimentRecord F)
        → IsRunning c r
        → Finishes P (engine r.configuration)
        → Ensures Never (Live c calm in_time) (under_lease c engine r) (λ _. Done)
    unfolding under_lease
    under_lease-Done engine r h finishes =
        Ensures-bind _ _ (λ _. (Live c calm in_time))
          (call-Has c calm (IsRunning c) (Anything c calm in_time) _)
          λ _.
            Ensures-bind _ _ (λ _. (Live c calm in_time))
              (Ensures-weaken _ _ _ (λ r w h. h.0)
                (update-Has c calm (IsRunning c) (Anything c calm in_time) _ (IsRunning c)
                  (renews-Gives c in_time)))
              λ _.
                Ensures-bind _ _ (λ _. (Live c calm in_time)) started
                  λ _.
                    Ensures-finally _ _ (Ensures-attempt_calm _ _ (work-Done engine r h finishes))
                      (λ w never. never) (λ _ w h. stopped w h)

    module _ (k : ExperimentConfig F) (engine : ExperimentConfig F → Run F) where
      abbrev Waiting : World F → Type 0
      Waiting = Has c (IsFresh c k) (Anything c calm in_time)

      abbrev IsClaimed : ExperimentRecord F → Type 0
      IsClaimed y = IsRunning c y × (y.configuration ≡ k)

      claimed-Live :
          (w : World F) → Has c IsClaimed (Anything c calm in_time) w → (Live c calm in_time) w
      claimed-Live w h = record {
        stored = h.stored;
        found = h.found;
        good = h.good.0;
        acting = tt;
        unlost = h.unlost;
        unstopped = h.unstopped;
      }

      fresh_open : (x : ExperimentRecord F) → IsFresh c k x → terminal x.status ≡ false
      fresh_open x h = rw h.queued_up refl

      deliver-Done : Finishes P (engine k) → Ensures Never Waiting (deliver c engine) (λ _. Done)
      unfolding deliver claim_and_work
      deliver-Done finishes =
          Ensures-bind _ _ _ (fetch-Has c calm (IsFresh c k) (Anything c calm in_time)) λ (x, now).
            record {
              at = λ w (waiting, fresh, found). rw (fresh_open x fresh) (
                  (Ensures-bind _ _ _
                      (update-Has c calm (IsFresh c k) (Anything c calm in_time) _ IsClaimed
                        (claims-Gives c in_time k))
                      λ r. record {
                        at = λ v (claimed, (live, same)).
                            (under_lease-Done engine r live (rw same finishes)).at v
                              (claimed-Live v claimed);
                      }).at
                    w waiting);
            }

      settle-Completed :
          (w : World F)
          → Done w
          → (acknowledged (settle c w).calls ≡ true)
            × ((x : ExperimentRecord F) × (lookup c.experiment_id (settle c w).store ≡ some x)
                × IsCompleted c P x)
      unfolding settle
      settle-Completed w h =
          rw (h.acting, settle)
            (rw (call_quiet c calm.quiet acknowledge w)
              (acknowledged_last w.calls, (h.stored, unfold tick in h.found, h.good)))

      -- In a calm environment, in which the clock readings lie within a visibility timeout, a job
      -- that was just submitted, with an engine that finishes with a result of `P`: `process`
      -- acknowledges its message, and its stored record is completed with the recommendation of a
      -- result of `P`.
      pub process-completes :
          (w : World F)
          → Finishes P (engine k)
          → Waiting w
          → (acknowledged (process c engine w).calls ≡ true)
            × ((x : ExperimentRecord F) × (lookup c.experiment_id (process c engine w).store
                  ≡ some x)
                × IsCompleted c P x)
      unfolding process
      process-completes w finishes waiting = settle-Completed _ (
          close-Kept c Done ((Has-IsLogged c calm in_time) (IsCompleted c P) Acknowledging) _ (
            calm-state Waiting Done _ (Ensures-attempt_calm _ _ (deliver-Done finishes)) w waiting))
