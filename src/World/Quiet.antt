-- ===== src/World/Quiet.antt =====
-- An environment in which nothing happens between the calls of a process and no call fails.
use azure_ml_optimization_pl.Base.{ℕ, ◌+◌, ◌≡◌, ◌||◌, none, some, [], ◌∷◌, ◌++◌, lookup, map}
use azure_ml_optimization_pl.Double.{Double}
use azure_ml_optimization_pl.Errors.{ok}
use azure_ml_optimization_pl.Domain.{ExperimentRecord}
use azure_ml_optimization_pl.Repository.{get, mutate, create}
use azure_ml_optimization_pl.Protocol.{Update, change_of, run}
use azure_ml_optimization_pl.Exec.{◌>>=◌}
use azure_ml_optimization_pl.World.{
  Turn, Call, World, Context, returns, mutate_under, create_under, heartbeat, interfere, next_turn,
  store_result, update, read_store, fetch, answer_call, call, store_new, create_record, list_names,
  record_names,
}

module _ {F : Type 0} where
  pub record IsQuiet (outside : ℕ → Turn F) : Type 0 where
    pub alone : (n : ℕ) → (outside n).acts ≡ []
    pub no_beat : (n : ℕ) → (outside n).beat ≡ none
    pub no_failure : (n : ℕ) → (outside n).answer ≡ returns

module _ {F : Type 0} (c : Context F) where
  -- The world after a turn.
  unfoldable pub tick : World F → World F
  tick w = record w { round = w.round + 1; stopping = w.stopping || (c.outside w.round).shutdown }

  abbrev pub turn : World F → Turn F
  turn w = c.outside w.round

module _ {F : Type 0} ⦃d : Double F⦄ (c : Context F) (quiet : IsQuiet c.outside) where
  open quiet use {alone, no_beat, no_failure}

  pub next_turn_quiet : (w : World F) → next_turn c w ≡ (ok (turn c w), tick c w)
  unfolding next_turn interfere heartbeat tick run
  next_turn_quiet w = simp (alone, no_beat)

  pub fetch_quiet :
      (w : World F) (r : ExperimentRecord F)
      → lookup c.experiment_id w.store ≡ some r
      → fetch c w ≡ (ok (r, (turn c w).times.guarded_at), tick c w)
  unfolding fetch ◌>>=◌ read_store get
  fetch_quiet w r found =
      rw next_turn_quiet (unfold read_store tick get in simp (no_failure, found))

  pub call_quiet :
      (x : Call F) (w : World F)
      → call c x w ≡ (ok (turn c w), record (tick c w) { calls = w.calls ++ x ∷ [] })
  unfolding call ◌>>=◌ answer_call
  call_quiet x w = rw next_turn_quiet (unfold answer_call tick in simp no_failure)

  pub update_quiet :
      (u : Update F) (w : World F)
      → let (r, s) = mutate c.experiment_id (change_of u) (turn c w).times w.store in
        update c u w ≡ (r, record (tick c w) { store = s })
  unfolding update ◌>>=◌ store_result
  update_quiet u w = rw next_turn_quiet (unfold store_result tick mutate_under in simp no_failure)

  pub create_quiet :
      (r : ExperimentRecord F) (w : World F)
      → let (q, s) = create r w.store in create_record c r w ≡ (q, record (tick c w) { store = s })
  unfolding create_record ◌>>=◌ store_new
  create_quiet r w = rw next_turn_quiet (unfold store_new tick create_under in simp no_failure)

  pub record_names_quiet :
      (w : World F) → record_names c w ≡ (ok (map (λ e. e.0) w.store), tick c w)
  unfolding record_names ◌>>=◌ list_names
  record_names_quiet w = rw next_turn_quiet (unfold list_names tick in simp no_failure)
