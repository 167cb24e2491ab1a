-- ===== src/World/Over.antt =====
-- The invariant behind acknowledgement, under the calls of a worker: the action is `ack` only for
-- a job that has ended.
use azure_ml_optimization_pl.Base.{
  ℕ, String, ◌≡◌, refl, ◌∙◌, Bool, true, false, not, ◌&&◌, ◌||◌, Bool-cases, inl, inr, Option, none,
  some, List, [], ◌∷◌, ◌++◌, arith, lookup, lookup-insert_self, sym,
}
use azure_ml_optimization_pl.Double.{Double}
use azure_ml_optimization_pl.Errors.{Result, ok, err, ◌>>=◌, bind-eq-ok}
use azure_ml_optimization_pl.Domain.{terminal, ExperimentRecord}
use azure_ml_optimization_pl.Repository.{
  Times, Store, Change, prepare, get, mutate, save, or_missing,
}
use azure_ml_optimization_pl.Protocol.{Update, renews, Act, mutates, change_of, perform, run}
use azure_ml_optimization_pl.Protocol.Runs.{run-HasEnded, perform-HasEnded}
use azure_ml_optimization_pl.Exec.{◌>>=◌ as bind}
use azure_ml_optimization_pl.Exec.Ensures.{Ensures, Keeps, Ensures-bind, EndsIn-of, Ensures-weaken}
use azure_ml_optimization_pl.World.{
  Answer, returns, fails_before, fails_after, Beat, Turn, Call, acknowledge, ack, World, Context,
  mutate_under, heartbeat, interfere, next_turn, store_result, update, read_store, fetch,
  answer_call, call, answered, stamp,
}

module _ {F : Type 0} where
  -- The job has ended.
  abbrev pub IsOver : String → Store F → Type 0
  IsOver id s = (x : ExperimentRecord F) × (lookup id s ≡ some x) × (terminal x.status ≡ true)

  abbrev pub is_acknowledge : Call F → Bool
  is_acknowledge acknowledge = true
  is_acknowledge _ = false

  abbrev pub acknowledged : List (Call F) → Bool
  acknowledged [] = false
  acknowledged (x ∷ xs) = is_acknowledge x || acknowledged xs

  pub acknowledged-append :
      (xs : List (Call F)) (x : Call F)
      → acknowledged xs ≡ false
      → is_acknowledge x ≡ false
      → acknowledged (xs ++ x ∷ []) ≡ false
  acknowledged-append [] x h k = rw k
  acknowledged-append (y ∷ xs) x h k = ground (arith, acknowledged-append xs x)

  save-ok :
      (id : String) (s : Store F) (q : Result (ExperimentRecord F)) (r : ExperimentRecord F)
      → (save id s q).0 ≡ ok r
      → (lookup id (save id s q).1 ≡ some r) × (q ≡ ok r)
  save-ok id s (ok r') r h = (ground (arith, lookup-insert_self id r' s), h)
  save-ok id s (err e) r h = cc

  -- A mutation that returns has stored what it returns.
  pub mutate_under-ok :
      (a : Answer) (id : String) (change : Change F) (t : Times) (s : Store F)
      (r : ExperimentRecord F)
      → (mutate_under a id change t s).0 ≡ ok r
      → (lookup id (mutate_under a id change t s).1 ≡ some r)
        × (get id s >>= prepare change t ≡ ok r)
  unfolding mutate_under mutate
  mutate_under-ok returns id change t s r h = save-ok id s (get id s >>= prepare change t) r h
  mutate_under-ok (fails_before e) id change t s r h = cc
  mutate_under-ok (fails_after e) id change t s r h = cc

  read-ok :
      (a : Answer) (id : String) (o : Option (ExperimentRecord F)) (r : ExperimentRecord F)
      (n now : ℕ)
      → answered a (stamp n (or_missing id o)) ≡ ok (r, now)
      → o ≡ some r
  read-ok returns id none r n now h = cc
  read-ok returns id (some x) r n now h = cc
  read-ok (fails_before e) id o r n now h = cc
  read-ok (fails_after e) id o r n now h = cc

module _ {F : Type 0} ⦃d : Double F⦄ where
  perform-IsOver :
      (id : String) (a : Times × Act F) (s : Store F) → IsOver id s → IsOver id (perform a s)
  perform-IsOver id a s (x, found, over) =
      let (y, there, same, done) = perform-HasEnded id x a s (x, found, refl, over) in
      (y, there, done)

  pub run-IsOver :
      (id : String) (acts : List (Times × Act F)) (s : Store F)
      → IsOver id s
      → IsOver id (run acts s)
  run-IsOver id acts s (x, found, over) =
      let (y, there, same, done) = run-HasEnded id x acts s (x, found, refl, over) in
      (y, there, done)

  mutate-IsOver :
      (id : String) (u : Update F) (t : Times) (s : Store F)
      → IsOver id s
      → IsOver id (mutate id (change_of u) t s).1
  mutate-IsOver id u t s h = unfold perform in perform-IsOver id (t, mutates id u) s h

  mutate_under-IsOver :
      (id : String) (a : Answer) (u : Update F) (t : Times) (s : Store F)
      → IsOver id s
      → IsOver id (mutate_under a id (change_of u) t s).1
  unfolding mutate_under
  mutate_under-IsOver id returns u t s h = mutate-IsOver id u t s h
  mutate_under-IsOver id (fails_before e) u t s h = h
  mutate_under-IsOver id (fails_after e) u t s h = mutate-IsOver id u t s h

module _ {F : Type 0} ⦃d : Double F⦄ (c : Context F) where
  pub record Acks (w : World F) : Type 0 where
    pub over : w.action ≡ some ack → IsOver c.experiment_id w.store
    pub pending : acknowledged w.calls ≡ false

  -- A step that keeps the action and the calls, and on whose store the job stays over.
  pub Acks-step :
      (w v : World F)
      → v.action ≡ w.action
      → v.calls ≡ w.calls
      → (IsOver c.experiment_id w.store → IsOver c.experiment_id v.store)
      → Acks w
      → Acks v
  Acks-step w v a b keep h = record {
    over = λ e. keep (h.over (sym a ∙ e));
    pending = rw b h.pending;
  }

  heartbeat-Acks : (b : Option Beat) (w : World F) → Acks w → Acks (heartbeat c b w)
  unfolding heartbeat
  heartbeat-Acks none w h = h
  heartbeat-Acks (some b) w h = elim (Bool-cases (w.renewing && not w.lost)) [
    | inl runs ↦ elim (Bool-cases b.visible) [
      | inl seen ↦
          rw (runs, seen, heartbeat)
            (Acks-step w _ refl refl
              (mutate_under-IsOver c.experiment_id b.answer (renews c.owner c.timeout) b.times
                w.store)
              h)
      | inr failed ↦ rw (runs, failed, heartbeat) (Acks-step w _ refl refl (λ x. x) h)
    ]
    | inr stopped ↦ rw (stopped, heartbeat) h
  ]

  heartbeat-IsOver :
      (b : Option Beat) (w : World F)
      → IsOver c.experiment_id w.store
      → IsOver c.experiment_id (heartbeat c b w).store
  unfolding heartbeat
  heartbeat-IsOver none w h = h
  heartbeat-IsOver (some b) w h = elim (Bool-cases (w.renewing && not w.lost)) [
    | inl runs ↦ elim (Bool-cases b.visible) [
      | inl seen ↦
          rw (runs, seen, heartbeat)
            (mutate_under-IsOver c.experiment_id b.answer (renews c.owner c.timeout) b.times w.store
              h)
      | inr failed ↦ rw (runs, failed, heartbeat) h
    ]
    | inr stopped ↦ rw (stopped, heartbeat) h
  ]

  -- A call of a service leaves a job over that is over.
  pub call-IsOver :
      (x : Call F) (w : World F)
      → IsOver c.experiment_id w.store
      → IsOver c.experiment_id (call c x w).1.store
  unfolding call bind next_turn answer_call interfere
  call-IsOver x w h = heartbeat-IsOver _ _ (run-IsOver c.experiment_id _ w.store h)

  pub next_turn-Acks : Keeps Acks (next_turn c)
  unfolding next_turn interfere
  next_turn-Acks = record {
    at = λ w h.
        heartbeat-Acks _ _ (Acks-step w _ refl refl (run-IsOver c.experiment_id _ w.store) h);
  }

  -- After an update of the job's record that returns: what it returned is stored, and was made by
  -- the update's callback.
  pub record Stored (u : Update F) (r : ExperimentRecord F) (w : World F) : Type 0 where
    pub acks : Acks w
    pub saved : lookup c.experiment_id w.store ≡ some r
    pub made : (x : ExperimentRecord F) × (t : Times) × (prepare (change_of u) t x ≡ ok r)

  store_result-Stored :
      (t : Turn F) (u : Update F) → Ensures Acks Acks (store_result c t u) (Stored u)
  unfolding store_result
  store_result-Stored t u = record {
    at = λ w h.
        let id = c.experiment_id in
        let v = Acks-step w _ refl refl (mutate_under-IsOver id t.answer u t.times w.store) h in
        EndsIn-of _ _ _ _ v λ r e.
          let (saved, from) = mutate_under-ok t.answer id (change_of u) t.times w.store r e in
          let (x, there, made) = bind-eq-ok (get id w.store) (prepare (change_of u) t.times) from in
          record { acks = v; saved = saved; made = (x, t.times, made) };
  }

  pub update-Stored : (u : Update F) → Ensures Acks Acks (update c u) (Stored u)
  unfolding update
  update-Stored u = Ensures-bind _ _ _ next_turn-Acks (λ t. store_result-Stored t u)

  pub update-Acks : (u : Update F) → Keeps Acks (update c u)
  update-Acks u = Ensures-weaken _ _ _ (λ r w h. h.acks) (update-Stored u)

  -- What `get` returns is in the store.
  abbrev pub Found : ExperimentRecord F × ℕ → World F → Type 0
  Found (r, now) w = Acks w × (lookup c.experiment_id w.store ≡ some r)

  read_store-Found : (t : Turn F) → Ensures Acks Acks (read_store c t) Found
  unfolding read_store get
  read_store-Found t = record {
    at = λ w h. EndsIn-of Acks Found (read_store c t w).0 w h λ (r, now) e. (
      h,
      read-ok t.answer c.experiment_id (lookup c.experiment_id w.store) r t.times.guarded_at now e,
    );
  }

  pub fetch-Found : Ensures Acks Acks (fetch c) Found
  unfolding fetch
  fetch-Found = Ensures-bind _ _ _ next_turn-Acks read_store-Found

  answer_call-Acks :
      (x : Call F) (t : Turn F) → is_acknowledge x ≡ false → Keeps Acks (answer_call c x t)
  unfolding answer_call
  answer_call-Acks x t quiet = record {
    at = λ w h.
        let v : Acks (record w { calls = w.calls ++ x ∷ [] }) = record {
          over = h.over;
          pending = acknowledged-append w.calls x h.pending quiet;
        } in
        EndsIn-of Acks (λ r. Acks) (answer_call c x t w).0 (answer_call c x t w).1 v λ r e. v;
  }

  pub call-Acks : (x : Call F) → is_acknowledge x ≡ false → Keeps Acks (call c x)
  unfolding call
  call-Acks x quiet = Ensures-bind _ _ _ next_turn-Acks (λ t. answer_call-Acks x t quiet)
