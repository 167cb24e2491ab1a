-- ===== src/Service/Outbox.antt =====
-- `dispatch` of service.py in an environment that does nothing else.
pub mod Answered
use azure_ml_optimization_pl.Base.{
  String, str_eq, ◌≡◌, refl, ◌∙◌, Bool, Bool-cases, true, false, inl, inr, not, ◌&&◌, ◌||◌, Option,
  none, some, List, [], ◌∷◌, ◌++◌, arith, lookup, insert, ap, sym, subst, ◌+◌,
}
use text.Mathlib.TextPositions.{eq_refl}
use azure_ml_optimization_pl.Double.{Double}
use azure_ml_optimization_pl.Errors.{Result, ok, err}
use azure_ml_optimization_pl.Domain.{ExperimentRecord, JobMessage, terminal}
use azure_ml_optimization_pl.Repository.{Times, Store, Change, get, mutate, prepare}
use azure_ml_optimization_pl.Protocol.{Update, dispatches, change_of, write}
use azure_ml_optimization_pl.Protocol.Record.{is_some}
use azure_ml_optimization_pl.Exec.{Exec, pure, attempt, recover, continue, ◌>>=◌}
use azure_ml_optimization_pl.Exec.Ensures.{
  Ensures, Ensures-bind, Ensures-attempt, EndsIn-of, EndsIn, bind_ok,
}
use azure_ml_optimization_pl.World.{
  World, Context, Call, Beat, Turn, Answer, returns, fails_before, fails_after, answered,
  mutate_under, enqueue, for_record, heartbeat, interfere, next_turn, update, call,
}
use azure_ml_optimization_pl.Service.{send, dispatch}
use azure_ml_optimization_pl.World.Quiet.{
  IsQuiet, tick, turn, next_turn_quiet, call_quiet, update_quiet,
}
use azure_ml_optimization_pl.Service.Changes.{mark_dispatched}

module _ {F : Type 0} where
  abbrev pub is_message : ExperimentRecord F → Call F → Bool
  is_message r (enqueue m) = str_eq m.job_id r.job_id && str_eq m.experiment_id r.experiment_id
  is_message r _ = false

  -- A message for the job of `r` is among the calls.
  abbrev pub enqueued : ExperimentRecord F → List (Call F) → Bool
  enqueued r [] = false
  enqueued r (x ∷ xs) = is_message r x || enqueued r xs

  pub enqueued-append :
      (r : ExperimentRecord F) (xs : List (Call F)) (x : Call F)
      → is_message r x ≡ true
      → enqueued r (xs ++ x ∷ []) ≡ true
  enqueued-append r [] x h = rw h refl
  enqueued-append r (y ∷ xs) x h = ground (arith, enqueued-append r xs x h)

  -- What a dispatch stores: the time of the dispatch, the next version and the time of the write.
  abbrev pub marked_at : Times → ExperimentRecord F → ExperimentRecord F
  marked_at t r = record r {
    dispatched_at = some t.changed_at;
    version = r.version + 1;
    updated_at = t.saved_at;
  }

module _ {F : Type 0} ⦃d : Double F⦄ (c : Context F) (quiet : IsQuiet c.outside) where
  mutate-dispatches :
      (id : String) (t : Times) (r : ExperimentRecord F) (s : Store F)
      → lookup id s ≡ some r
      → mutate id (change_of dispatches) t s ≡ (ok (marked_at t r), insert id (marked_at t r) s)
  unfolding mutate get prepare change_of mark_dispatched
  mutate-dispatches id t r s found = rw (found, mutate) (ground arith)

  abbrev pub message_of : ExperimentRecord F → World F → JobMessage
  message_of r w = record {
    job_id = r.job_id;
    experiment_id = r.experiment_id;
    enqueued_at = (turn c w).times.changed_at;
  }

  -- The world after the call of the queue, and the mark that is then written.
  abbrev after_call : ExperimentRecord F → World F → World F
  after_call r w = record (tick c (tick c w)) { calls = w.calls ++ enqueue (message_of r w) ∷ [] }

  abbrev pub mark_of : ExperimentRecord F → World F → ExperimentRecord F
  mark_of old w = marked_at (turn c (tick c (tick c w))).times old

  update_mark :
      (r old : ExperimentRecord F) (w : World F)
      → lookup r.experiment_id w.store ≡ some old
      → update (for_record r.experiment_id c) dispatches (after_call r w) ≡ (
        ok (mark_of old w),
        record (tick c (after_call r w)) { store = insert r.experiment_id (mark_of old w) w.store },
      )
  unfolding tick
  update_mark r old w found =
      update_quiet (for_record r.experiment_id c) quiet dispatches (after_call r w)
      ∙ rw (mutate-dispatches r.experiment_id (turn c (tick c (tick c w))).times old w.store found)
          refl

  send_quiet :
      (r old : ExperimentRecord F) (w : World F)
      → lookup r.experiment_id w.store ≡ some old
      → send c r w ≡ (
        ok true,
        record (tick c (after_call r w)) { store = insert r.experiment_id (mark_of old w) w.store },
      )
  unfolding send tick pure
  send_quiet r old w found =
      let here = for_record r.experiment_id c in
      bind_ok _ _ w (turn c w) (tick c w) (next_turn_quiet here quiet w)
      ∙ bind_ok _ _ (tick c w) (turn c (tick c w)) (after_call r w)
          (call_quiet here quiet (enqueue (message_of r w)) (tick c w))
      ∙ bind_ok _ _ (after_call r w) (mark_of old w) _ (update_mark r old w found)

  -- In an environment that does nothing else: `dispatch` of a pending job whose record is there
  -- sends one message with the names of the job, stores the record with the time of the dispatch, the
  -- next version and the time of the write, and returns `True`.
  pub dispatch_pending :
      (r old : ExperimentRecord F) (w : World F)
      → is_some r.dispatched_at || terminal r.status ≡ false
      → lookup r.experiment_id w.store ≡ some old
      → let (b, w') = dispatch c r w in
        (b ≡ ok true)
        × (w'.calls ≡ w.calls ++ enqueue (message_of r w) ∷ [])
        × (w'.store ≡ insert r.experiment_id (mark_of old w) w.store)
  unfolding dispatch attempt
  dispatch_pending r old w pending found =
      rw pending (rw (send_quiet r old w found) (unfold tick in (refl, refl, refl)))
