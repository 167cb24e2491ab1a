-- ===== src/Worker/Loop/Stops.antt =====
-- `run_forever` of worker.py with a signal, on fuel.
use azure_ml_optimization_pl.Base.{
  ℕ, zero, suc, ◌+◌, ◌<◌, ◌≤◌, ◌⊎◌, Bool, true, false, ◌||◌, Bool-cases, inl, inr, ◌≡◌, refl,
  Option, none, some, arith,
}
use azure_ml_optimization_pl.Double.{Double}
use azure_ml_optimization_pl.Errors.{Result, ok, err}
use azure_ml_optimization_pl.Domain.{ExperimentConfig}
use azure_ml_optimization_pl.Engine.{Run}
use azure_ml_optimization_pl.Exec.Ensures.{
  Keeps, Keeps-pure, Keeps-gets, Keeps-modify, Keeps-bind, Keeps-if, Keeps-state,
}
use azure_ml_optimization_pl.World.{World, Context, receive}
use azure_ml_optimization_pl.World.Steady.{
  Steady, IsMoved, next_turn-Steady, call-Steady, next_turn_counted,
}
use azure_ml_optimization_pl.Worker.Steady.{process-Steady}
use azure_ml_optimization_pl.Service.Steady.{reconcile_pending-Steady}
use azure_ml_optimization_pl.Worker.Loop.{
  Delivery, for_delivery, new_delivery, wait, reconcile_when, process_delivery, run_once,
  after_poll, poll_with, poll, loop, run_forever,
}

module _ {F : Type 0} ⦃d : Double F⦄ (c : Context F) (J : ℕ → Bool → Type 0) (moves : IsMoved c J)
    (engine : ExperimentConfig F → Run F) (delivered : ℕ → Option Delivery) where
  abbrev I : World F → Type 0
  I = Steady c J

  wait-Steady : (w : World F) → I w → I (wait c w)
  wait-Steady w h = Keeps-state _ (next_turn-Steady c J moves) w h

  reconcile_when-Steady : (reconciled : F) → Keeps I (reconcile_when c reconciled)
  unfolding reconcile_when
  reconcile_when-Steady reconciled = Keeps-bind _ _ (next_turn-Steady c J moves) λ t.
      Keeps-if _ _ _
        (Keeps-bind _ _ (reconcile_pending-Steady c J moves)
          λ n. Keeps-bind _ _ (next_turn-Steady c J moves) λ now. Keeps-pure _)
        (Keeps-pure _)

  process_delivery-Steady :
      (job : Option Delivery) → Keeps I (process_delivery c engine delivered job)
  unfolding process_delivery
  process_delivery-Steady none = Keeps-pure false
  process_delivery-Steady (some job) = Keeps-bind _ _ (Keeps-modify new_delivery λ w h. h) λ _.
      Keeps-bind _ _ (Keeps-modify _ (process-Steady (for_delivery job c) J moves engine))
        λ _. Keeps-pure true

  run_once-Steady : Keeps I (run_once c engine delivered)
  unfolding run_once
  run_once-Steady =
      Keeps-bind _ _ (Keeps-gets _) λ n.
        Keeps-bind _ _ (call-Steady c J moves receive) λ _. process_delivery-Steady (delivered n)

  after_poll-Steady :
      (r : Result Bool) (w : World F) → I w → I (after_poll c engine delivered (r, w))
  after_poll-Steady (ok true) w h = h
  after_poll-Steady (ok false) w h = wait-Steady w h
  after_poll-Steady (err e) w h = wait-Steady w h

  poll_with-Steady :
      (old : F) (r : Result F) (w : World F) → I w → I (poll_with c engine delivered old (r, w)).1
  poll_with-Steady old (ok reconciled) w h =
      after_poll-Steady _ _ (Keeps-state _ run_once-Steady w h)
  poll_with-Steady old (err e) w h = wait-Steady w h

  poll-Steady : (reconciled : F) (w : World F) → I w → I (poll c engine delivered reconciled w).1
  unfolding poll
  poll-Steady reconciled w h =
      poll_with-Steady reconciled _ _ (Keeps-state _ (reconcile_when-Steady reconciled) w h)

-- Call number `k` was made, and the signal at call number `n` was seen by the calls behind it.
abbrev Seen : (k n : ℕ) → ℕ → Bool → Type 0
Seen k n round stopping = (k ≤ round) × (n < round → stopping ≡ true)

or_true : (b : Bool) → b || true ≡ true
or_true true = refl
or_true false = refl

module _ {F : Type 0} ⦃d : Double F⦄ (c : Context F) (n : ℕ)
    (signalled : (c.outside n).shutdown ≡ true) where
  before_or_at : (m : ℕ) → n < m + 1 → (n < m) ⊎ (n ≡ m)
  before_or_at m h = omega arith

  Seen-moves : (k : ℕ) → IsMoved c (Seen k n)
  Seen-moves k m b (late, seen) = (
    omega arith,
    λ h. elim (before_or_at m h) [
      | inl earlier ↦ rw (seen earlier) refl
      | inr now ↦ rw (← now, signalled) (or_true b)
    ],
  )

  module _ (engine : ExperimentConfig F → Run F) (delivered : ℕ → Option Delivery) where
    turned :
        (w : World F)
        → (n < w.round → w.stopping ≡ true)
        → Steady c (Seen (w.round + 1) n) (wait c w)
    turned w seen =
        next_turn_counted c (Seen (w.round + 1) n) w
          (omega arith, (Seen-moves w.round w.round w.stopping (omega arith, seen)).1)

    -- A pass that does not see the signal leaves the next call to the passes behind it.
    polled :
        (reconciled : F) (w : World F)
        → (n < w.round → w.stopping ≡ true)
        → Steady c (Seen (w.round + 1) n) (poll c engine delivered reconciled (wait c w)).1
    polled reconciled w seen =
        poll-Steady c (Seen (w.round + 1) n) (Seen-moves (w.round + 1)) engine delivered reconciled
          (wait c w) (turned w seen)

    loop_ends :
        (fuel : ℕ) (reconciled : F) (w : World F)
        → (n < w.round → w.stopping ≡ true)
        → n ≤ fuel + w.round
        → (loop c engine delivered (suc fuel) reconciled w).1 ≡ true
    unfolding loop
    loop_ends zero reconciled w seen enough =
        let (late, stop) = turned w seen in rw (stop (omega arith), loop) refl
    loop_ends (suc fuel) reconciled w seen enough = elim (Bool-cases (wait c w).stopping) [
      | inl stop ↦ rw (stop, loop) refl
      | inr go ↦
          let (u, later) = poll c engine delivered reconciled (wait c w) in
          let (late, seen') = polled reconciled w seen in
          rw (go, loop) (loop_ends fuel _ _ seen' (omega arith))
    ]

    -- If the environment signals at call number `n`, which is still to come, then `run_forever`
    -- ends, whatever the engine, the queue, the other processes and the failing services do, and
    -- `n + 1` passes of its loop are enough.
    pub run_forever-stops :
        (w : World F) → w.round ≤ n → (run_forever c engine delivered (suc n) w).1 ≡ true
    unfolding run_forever
    run_forever-stops w early = loop_ends n _ w (λ late. ground arith) (omega arith)
