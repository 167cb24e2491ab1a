-- ===== src/World/Calm.antt =====
-- A quiet environment without a signal to stop: methods on the record of a job that do not raise.
use azure_ml_optimization_pl.Base.{
  ℕ, ◌+◌, ◌≡◌, refl, false, not, Option, some, lookup, insert, lookup-insert_self, arith, ◌==◌,
  String,
}
use Prim.{⊥, absurd}
use azure_ml_optimization_pl.Double.{Double}
use azure_ml_optimization_pl.Errors.{Error, ok, err, Result}
use azure_ml_optimization_pl.Domain.{ExperimentRecord}
use azure_ml_optimization_pl.Repository.{Times, Change, Store, prepare, get, mutate}
use azure_ml_optimization_pl.Protocol.{Update, change_of}
use azure_ml_optimization_pl.Exec.{Exec, attempt, recover}
use azure_ml_optimization_pl.Exec.Ensures.{Ensures, Keeps, EndsIn}
use azure_ml_optimization_pl.World.{
  World, Context, Call, Settlement, next_turn, update, fetch, call,
}
use azure_ml_optimization_pl.World.Quiet.{
  IsQuiet, tick, turn, next_turn_quiet, call_quiet, update_quiet, fetch_quiet,
}

module _ {F : Type 0} where
  -- The record after `mutate` has counted the write.
  abbrev pub bumped : Times → ExperimentRecord F → ExperimentRecord F
  bumped t y = record y { version = y.version + 1; updated_at = t.saved_at }

  pub prepare_ok :
      (change : Change F) (t : Times) (x y : ExperimentRecord F)
      → change t x ≡ ok y
      → y.version ≡ x.version
      → prepare change t x ≡ ok (bumped t y)
  unfolding prepare
  prepare_ok change t x y e same =
      let unchanged : not (y.version == x.version) ≡ false = ground arith in
      rw e (rw unchanged refl)

  mutate_ok :
      (id : String) (change : Change F) (t : Times) (s : Store F) (x y : ExperimentRecord F)
      → lookup id s ≡ some x
      → prepare change t x ≡ ok y
      → mutate id change t s ≡ (ok y, insert id y s)
  unfolding mutate get
  mutate_ok id change t s x y found e = rw found (rw e refl)

-- No state: a method with this error condition does not raise.
abbrev pub Never : {F : Type 0} → World F → Type 0
Never w = ⊥

module _ {F : Type 0} ⦃d : Double F⦄ (c : Context F) where
  -- The stored record is one of `P` and the variable `action` one of `A`, while the lease is not
  -- lost and no signal has come.
  pub record Has (P : ExperimentRecord F → Type 0) (A : Option Settlement → Type 0) (w : World F)
      : Type 0 where
    pub stored : ExperimentRecord F
    pub found : lookup c.experiment_id w.store ≡ some stored
    pub good : P stored
    pub acting : A w.action
    pub unlost : w.lost ≡ false
    pub unstopped : w.stopping ≡ false

  -- The environment is quiet, and no signal comes.
  pub record IsCalm : Type 0 where
    pub quiet : IsQuiet c.outside
    pub no_signal : (n : ℕ) → (c.outside n).shutdown ≡ false

  module _ (calm : IsCalm) (P : ExperimentRecord F → Type 0) (A : Option Settlement → Type 0) where
    open calm use {quiet, no_signal}

    ticked : (w : World F) → Has P A w → Has P A (tick c w)
    unfolding tick
    ticked w h = record {
      stored = h.stored;
      found = h.found;
      good = h.good;
      acting = h.acting;
      unlost = h.unlost;
      unstopped = rw (h.unstopped, no_signal w.round) refl;
    }

    pub next_turn-Has : Ensures Never (Has P A) (next_turn c) (λ t. Has P A)
    next_turn-Has = record { at = λ w h. rw (next_turn_quiet c quiet w) (ticked w h) }

    pub call-Has : (x : Call F) → Ensures Never (Has P A) (call c x) (λ t. Has P A)
    call-Has x = record {
      at = λ w h.
          let k = ticked w h in
          rw (call_quiet c quiet x w) (record {
            stored = k.stored;
            found = k.found;
            good = k.good;
            acting = k.acting;
            unlost = k.unlost;
            unstopped = k.unstopped;
          });
    }

    pub fetch-Has :
        Ensures Never
          (Has P A)
          (fetch c)
          (λ (r, now) w. Has P A w × P r × ((n : ℕ) × (now ≡ (c.outside n).times.guarded_at)))
    fetch-Has = record {
      at = λ w h. rw (fetch_quiet c quiet w h.stored h.found) (ticked w h, h.good, (w.round, refl));
    }

    pub update-Has :
        (u : Update F) (Q : ExperimentRecord F → Type 0)
        → ((n : ℕ) (x : ExperimentRecord F)
            → P x
            → let t = (c.outside n).times in
              (y : ExperimentRecord F) × (change_of u t x ≡ ok y)
              × (y.version ≡ x.version)
              × Q (bumped t y))
        → Ensures Never (Has P A) (update c u) (λ r w. Has Q A w × Q r)
    update-Has u Q step = record {
      at = λ w h.
          let k = ticked w h in
          let (y, made, same, good) = step w.round h.stored h.good in
          let t = (turn c w).times in
          let e =
            mutate_ok c.experiment_id (change_of u) t w.store h.stored (bumped t y) h.found
              (prepare_ok (change_of u) t h.stored y made same) in
          rw (update_quiet c quiet u w) (
            rw e (
              record {
                stored = bumped t y;
                found = lookup-insert_self c.experiment_id (bumped t y) w.store;
                good = good;
                acting = k.acting;
                unlost = k.unlost;
                unstopped = k.unstopped;
              },
              good,
            ));
    }

ended_in :
    {F A : Type 0} (Q : World F → Type 0) (r : Result A) (s : World F)
    → EndsIn Never (λ a. Q) r s
    → Q s
ended_in Q (ok a) s q = q
ended_in Q (err e) s q = absurd q

module _ {F A : Type 0} (I : World F → Type 0) (Q : A → World F → Type 0) where
  recovered :
      (h : Error → Exec (World F) A) (r : Result A) (s : World F)
      → EndsIn Never Q r s
      → EndsIn Never Q (recover r h s).0 (recover r h s).1
  recovered h (ok a) s q = q
  recovered h (err e) s q = absurd q

  handled :
      (h : Error → Exec (World F) A)
      → ((e : Error) → Ensures Never I (h e) Q)
      → (r : Result A) (s : World F) → EndsIn I Q r s
      → EndsIn Never Q (recover r h s).0 (recover r h s).1
  handled h k (ok a) s q = q
  handled h k (err e) s q = (k e).at s q

  kept : (r : Result A) (s : World F) → EndsIn Never Q r s → EndsIn I Q r s
  kept (ok a) s q = q
  kept (err e) s q = absurd q

-- What no step raises, no handler sees.
pub Ensures-attempt_calm :
    {F A : Type 0} {P : World F → Type 0} {Q : A → World F → Type 0} (m : Exec (World F) A)
    (h : Error → Exec (World F) A)
    → Ensures Never P m Q
    → Ensures Never P (attempt m h) Q
unfolding attempt
Ensures-attempt_calm m h e = record { at = λ w p. recovered Never _ h (m w).0 (m w).1 (e.at w p) }

-- A handler that does not raise, behind a method that may.
pub Ensures-attempt_handled :
    {F A : Type 0} {I P : World F → Type 0} {Q : A → World F → Type 0} (m : Exec (World F) A)
    (h : Error → Exec (World F) A)
    → Ensures I P m Q
    → ((e : Error) → Ensures Never I (h e) Q)
    → Ensures Never P (attempt m h) Q
unfolding attempt
Ensures-attempt_handled m h e k = record { at = λ w p. handled _ _ h k (m w).0 (m w).1 (e.at w p) }

pub calm-Keeps :
    {F A : Type 0} {I : World F → Type 0} (m : Exec (World F) A)
    → Ensures Never I m (λ a. I)
    → Keeps I m
calm-Keeps m e = record { at = λ w h. kept _ _ (m w).0 (m w).1 (e.at w h) }

pub calm-state :
    {F A : Type 0} (P Q : World F → Type 0) (m : Exec (World F) A)
    → Ensures Never P m (λ a. Q)
    → (w : World F) → P w
    → Q (m w).1
calm-state P Q m e w h = ended_in Q (m w).0 (m w).1 (e.at w h)
