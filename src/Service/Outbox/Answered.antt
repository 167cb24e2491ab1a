-- ===== src/Service/Outbox/Answered.antt =====
-- `dispatch` of service.py beside what the environment answers to its calls.
use azure_ml_optimization_pl.Base.{
  String, ◌≡◌, refl, ◌∙◌, Bool, Bool-cases, true, false, inl, inr, not, ◌&&◌, ◌||◌, Option, none,
  some, [], ◌∷◌, ◌++◌, ap, sym, subst, ◌+◌,
}
use azure_ml_optimization_pl.Double.{Double}
use azure_ml_optimization_pl.Errors.{Result, ok, err}
use azure_ml_optimization_pl.Domain.{ExperimentRecord, JobMessage, terminal}
use azure_ml_optimization_pl.Repository.{Times, Store, Change}
use azure_ml_optimization_pl.Protocol.{Update, dispatches}
use azure_ml_optimization_pl.Protocol.Record.{is_some}
use azure_ml_optimization_pl.Exec.{Exec, pure, attempt, recover, continue, ◌>>=◌}
use azure_ml_optimization_pl.World.{
  World, Context, Call, Beat, Turn, Answer, returns, fails_before, fails_after, answered,
  mutate_under, enqueue, for_record, heartbeat, interfere, next_turn, update, call,
}
use azure_ml_optimization_pl.Service.{send, dispatch}

module _ {F : Type 0} ⦃d : Double F⦄ (c : Context F) where
  heartbeat-calls : (b : Option Beat) (w : World F) → (heartbeat c b w).calls ≡ w.calls
  unfolding heartbeat
  heartbeat-calls none w = refl
  heartbeat-calls (some b) w = elim (Bool-cases (w.renewing && not w.lost)) [
    | inl runs ↦ elim (Bool-cases b.visible) [
      | inl seen ↦ rw (runs, seen, heartbeat) refl
      | inr failed ↦ rw (runs, failed, heartbeat) refl
    ]
    | inr stopped ↦ rw (stopped, heartbeat) refl
  ]

  next_turn-calls : (w : World F) → (next_turn c w).1.calls ≡ w.calls
  unfolding next_turn interfere
  next_turn-calls w = heartbeat-calls _ _

  call-calls : (x : Call F) (w : World F) → (call c x w).1.calls ≡ w.calls ++ x ∷ []
  unfolding call ◌>>=◌ next_turn
  call-calls x w = ap (λ xs. xs ++ x ∷ []) (next_turn-calls w)

  heartbeat-round : (b : Option Beat) (w : World F) → (heartbeat c b w).round ≡ w.round
  unfolding heartbeat
  heartbeat-round none w = refl
  heartbeat-round (some b) w = elim (Bool-cases (w.renewing && not w.lost)) [
    | inl runs ↦ elim (Bool-cases b.visible) [
      | inl seen ↦ rw (runs, seen, heartbeat) refl
      | inr failed ↦ rw (runs, failed, heartbeat) refl
    ]
    | inr stopped ↦ rw (stopped, heartbeat) refl
  ]

  next_turn-round : (w : World F) → (next_turn c w).1.round ≡ w.round + 1
  unfolding next_turn interfere
  next_turn-round w = heartbeat-round _ _

  call-round : (x : Call F) (w : World F) → (call c x w).1.round ≡ w.round + 1
  unfolding call ◌>>=◌ next_turn
  call-round x w = next_turn-round w

  update-calls : (u : Update F) (w : World F) → (update c u w).1.calls ≡ w.calls
  unfolding update ◌>>=◌ next_turn
  update-calls u w = next_turn-calls w

  answered_ok : {A : Type 0} (a : Answer) (q : Result A) (x : A) → answered a q ≡ ok x → a ≡ returns
  answered_ok returns q x h = refl
  answered_ok (fails_before e) q x h = cc
  answered_ok (fails_after e) q x h = cc

  -- A call that returned was answered without a failure, in the turn that it took.
  call-answered :
      (x : Call F) (w : World F) (t : Turn F)
      → (call c x w).0 ≡ ok t
      → (c.outside w.round).answer ≡ returns
  unfolding call ◌>>=◌ next_turn
  call-answered x w t h = answered_ok (c.outside w.round).answer (ok (c.outside w.round)) t h

  mutate_under_ok :
      (a : Answer) (id : String) (change : Change F) (t : Times) (s : Store F)
      (r : ExperimentRecord F)
      → (mutate_under a id change t s).0 ≡ ok r
      → a ≡ returns
  unfolding mutate_under
  mutate_under_ok returns id change t s r h = refl
  mutate_under_ok (fails_before e) id change t s r h = cc
  mutate_under_ok (fails_after e) id change t s r h = cc

  update-answered :
      (u : Update F) (w : World F) (r : ExperimentRecord F)
      → (update c u w).0 ≡ ok r
      → (c.outside w.round).answer ≡ returns
  unfolding update ◌>>=◌ next_turn
  update-answered u w r h = mutate_under_ok _ _ _ _ _ r h

module _ {S A B : Type 0} where
  continue_ok :
      (q : Result A) (f : A → Exec S B) (s : S) (b : B)
      → (continue q f s).0 ≡ ok b
      → (a : A) × (q ≡ ok a) × (continue q f s ≡ f a s)
  continue_ok (ok a) f s b h = (a, refl, refl)
  continue_ok (err e) f s b h = cc

  -- The step behind the first one, of methods that returned.
  bind_returned :
      (m : Exec S A) (f : A → Exec S B) (s : S) (b : B)
      → ((m >>= f) s).0 ≡ ok b
      → (a : A) × ((m s).0 ≡ ok a) × ((m >>= f) s ≡ f a (m s).1)
  unfolding ◌>>=◌
  bind_returned m f s b h = continue_ok (m s).0 f (m s).1 b h

module _ {F : Type 0} ⦃d : Double F⦄ (r : ExperimentRecord F) where
  -- From `w` to `w'` one message for the job was sent: the queue answered the call in its turn, and
  -- after it the repository answered the mutation in its own.
  pub record Sent (c : Context F) (w w' : World F) : Type 0 where
    pub message : JobMessage
    pub own_job : message.job_id ≡ r.job_id
    pub own_experiment : message.experiment_id ≡ r.experiment_id
    pub only_call : w'.calls ≡ w.calls ++ enqueue message ∷ []
    pub queue_answered : (c.outside (w.round + 1)).answer ≡ returns
    pub repository_answered : (c.outside (w.round + 1 + 1)).answer ≡ returns

  send-Sent :
      (c : Context F) (w : World F) (b : Bool) → (send c r w).0 ≡ ok b → Sent c w (send c r w).1
  unfolding send pure
  send-Sent c w b h =
      let here = for_record r.experiment_id c in
      let (t, first, e) = bind_returned (next_turn here) _ w b h in
      let v = (next_turn here w).1 in
      let (a, second, f) = bind_returned (call here _) _ v b (ap (λ p. p.0) (sym e) ∙ h) in
      let u = (call here _ v).1 in
      let h' = ap (λ p. p.0) (sym (e ∙ f)) ∙ h in
      let (x, third, g) = bind_returned (update here dispatches) _ u b h' in
      let turn_of_call : v.round ≡ w.round + 1 = next_turn-round here w in
      let turn_of_update : u.round ≡ v.round + 1 = call-round here _ v in
      let sent : JobMessage = record {
        job_id = r.job_id;
        experiment_id = r.experiment_id;
        enqueued_at = t.times.changed_at;
      } in
      record {
        message = sent;
        own_job = refl;
        own_experiment = refl;
        only_call =
            ap (λ p. p.1.calls) (e ∙ f ∙ g)
            ∙ update-calls here dispatches u
            ∙ call-calls here _ v
            ∙ ap (λ xs. xs ++ enqueue sent ∷ []) (next_turn-calls here w);
        queue_answered =
            ap (λ n. (c.outside n).answer) (sym turn_of_call) ∙ call-answered here _ v a second;
        repository_answered =
            ap (λ n. (c.outside n).answer) (sym (turn_of_update ∙ ap (λ n. n + 1) turn_of_call))
            ∙ update-answered here dispatches u x third;
      }

  recover-ok :
      (q : Result Bool) (w : World F) → (b : Bool) × ((recover q (λ e. pure false) w).0 ≡ ok b)
  unfolding pure
  recover-ok (ok b) w = (b, refl)
  recover-ok (err e) w = (false, refl)

  recover-true :
      (q : Result Bool) (w : World F)
      → (recover q (λ e. pure false) w).0 ≡ ok true
      → (q ≡ ok true) × ((recover q (λ e. pure false) w).1 ≡ w)
  unfolding pure
  recover-true (ok b) w h = (h, refl)
  recover-true (err e) w h = cc

  dispatch-ok : (c : Context F) (w : World F) → (b : Bool) × ((dispatch c r w).0 ≡ ok b)
  unfolding dispatch attempt pure
  dispatch-ok c w = elim (Bool-cases (is_some r.dispatched_at || terminal r.status)) [
    | inl done ↦ rw done (false, refl)
    | inr pending ↦ rw pending (recover-ok _ _)
  ]

  attempt-Sent :
      (c : Context F) (w : World F)
      → (attempt (send c r) (λ e. pure false) w).0 ≡ ok true
      → Sent c w (attempt (send c r) (λ e. pure false) w).1
  unfolding attempt
  attempt-Sent c w h =
      let (returned, same) = recover-true (send c r w).0 (send c r w).1 h in
      subst (Sent c w) (sym same) (send-Sent c w true returned)

  dispatch-true-Sent :
      (c : Context F) (w : World F) → (dispatch c r w).0 ≡ ok true → Sent c w (dispatch c r w).1
  unfolding dispatch pure
  dispatch-true-Sent c w = elim (Bool-cases (is_some r.dispatched_at || terminal r.status)) [
    | inl done ↦ rw done (λ h. cc)
    | inr pending ↦ rw pending (attempt-Sent c w)
  ]

  -- In every environment `dispatch` returns, whatever fails; and if it returns `True`, then it sent
  -- one message with the names of the job and made no other call of a service: the queue answered
  -- that call without a failure, and so did the repository the mutation behind it.
  pub dispatch-Sent :
      (c : Context F) (w : World F)
      → (b : Bool) × ((dispatch c r w).0 ≡ ok b) × (b ≡ true → Sent c w (dispatch c r w).1)
  dispatch-Sent c w =
      let (b, e) = dispatch-ok c w in (b, e, λ h. dispatch-true-Sent c w (e ∙ ap ok h))
