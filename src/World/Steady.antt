-- ===== src/World/Steady.antt =====
-- The number of the call and the `stop_event` under methods that call services.
use azure_ml_optimization_pl.Base.{
  ℕ, ◌+◌, Bool, Bool-cases, not, ◌&&◌, ◌||◌, inl, inr, Option, none, some,
}
use azure_ml_optimization_pl.Double.{Double}
use azure_ml_optimization_pl.Protocol.{Update}
use azure_ml_optimization_pl.Exec.Ensures.{Keeps, Keeps-bind, EndsIn}
use azure_ml_optimization_pl.Errors.{Result, ok, err}
use azure_ml_optimization_pl.World.{
  World, Context, Beat, Call, heartbeat, interfere, next_turn, store_result, update, read_store,
  fetch, answer_call, call, list_names, record_names,
}

module _ {F : Type 0} ⦃d : Double F⦄ (c : Context F) (J : ℕ → Bool → Type 0) where
  abbrev pub Steady : World F → Type 0
  Steady w = J w.round w.stopping

  -- What every turn keeps.
  abbrev pub IsMoved : Type 0
  IsMoved = (n : ℕ) (b : Bool) → J n b → J (n + 1) (b || (c.outside n).shutdown)

  ended : {A : Type 0} (r : Result A) (s : World F) → Steady s → EndsIn Steady (λ a. Steady) r s
  ended (ok a) s h = h
  ended (err e) s h = h

  heartbeat-Steady : (b : Option Beat) (w : World F) → Steady w → Steady (heartbeat c b w)
  unfolding heartbeat
  heartbeat-Steady none w h = h
  heartbeat-Steady (some b) w h = elim (Bool-cases (w.renewing && not w.lost)) [
    | inl runs ↦ elim (Bool-cases b.visible) [
      | inl seen ↦ rw (runs, seen, heartbeat) h
      | inr failed ↦ rw (runs, failed, heartbeat) h
    ]
    | inr stopped ↦ rw (stopped, heartbeat) h
  ]

  -- One turn is counted, and sees its signal.
  pub next_turn_counted :
      (w : World F)
      → J (w.round + 1) (w.stopping || (c.outside w.round).shutdown)
      → Steady (next_turn c w).1
  unfolding next_turn interfere
  next_turn_counted w h = heartbeat-Steady _ _ h

  module _ (moves : IsMoved) where
    pub next_turn-Steady : Keeps Steady (next_turn c)
    unfolding next_turn interfere
    next_turn-Steady = record { at = λ w h. next_turn_counted w (moves w.round w.stopping h) }

    pub update-Steady : (u : Update F) → Keeps Steady (update c u)
    unfolding update store_result
    update-Steady u = Keeps-bind _ _ next_turn-Steady λ t. record { at = λ w h. ended _ _ h }

    pub fetch-Steady : Keeps Steady (fetch c)
    unfolding fetch read_store
    fetch-Steady = Keeps-bind _ _ next_turn-Steady λ t. record { at = λ w h. ended _ _ h }

    pub call-Steady : (x : Call F) → Keeps Steady (call c x)
    unfolding call answer_call
    call-Steady x = Keeps-bind _ _ next_turn-Steady λ t. record { at = λ w h. ended _ _ h }

    pub record_names-Steady : Keeps Steady (record_names c)
    unfolding record_names list_names
    record_names-Steady = Keeps-bind _ _ next_turn-Steady λ t. record { at = λ w h. ended _ _ h }
