-- ===== src/Service/Reconcile/Sweep.antt =====
-- What all dispatches of `reconcile_pending` do to a pending record.
use azure_ml_optimization_pl.Base.{
  ℕ, ◌+◌, String, str_eq, eq_iff, ◌≡◌, refl, sym, ◌∙◌, subst, Bool, Bool-cases, true, false, inl,
  inr, ◌||◌, All, Option-cases, some, List, [], ◌∷◌, map, arith, lookup, if◌then◌else◌,
}
use text.Mathlib.TextPositions.{eq_refl}
use azure_ml_optimization_pl.Double.{Double}
use azure_ml_optimization_pl.Errors.{Result, ok}
use azure_ml_optimization_pl.Domain.{ExperimentRecord, terminal}
use azure_ml_optimization_pl.Repository.{Times, Store}
use azure_ml_optimization_pl.Protocol.Record.{is_some}
use azure_ml_optimization_pl.Exec.{pure}
use azure_ml_optimization_pl.Exec.Ensures.{bind_ok}
use azure_ml_optimization_pl.World.{World, Context, Call, enqueue, for_record}
use azure_ml_optimization_pl.World.Quiet.{IsQuiet, tick, turn, fetch_quiet, record_names_quiet}
use azure_ml_optimization_pl.Service.{dispatch, dispatch_each, reconcile_pending}
use azure_ml_optimization_pl.Service.Outbox.{
  is_message, dispatch_pending, message_of, mark_of, marked_at,
}
use azure_ml_optimization_pl.Service.Reconcile.{
  is_pending, IsKeyed, Dispatched, Dispatch, stays, goes_out, Dispatch-IsKeyed, Dispatch-there,
  Dispatch-Dispatched, Dispatch-own, Dispatch-apart,
}

module _ {F : Type 0} ⦃d : Double F⦄ (c : Context F) (quiet : IsQuiet c.outside) where
  mark_lem :
      (t : Times) (r : ExperimentRecord F)
      → ((marked_at t r).experiment_id ≡ r.experiment_id)
        × (is_some (marked_at t r).dispatched_at ≡ true)
  mark_lem t r = (refl, refl)

  -- A dispatch of a record as it is stored.
  dispatch_quiet :
      (r : ExperimentRecord F) (w : World F)
      → lookup r.experiment_id w.store ≡ some r
      → let (q, w') = dispatch c r w in
        ((b : Bool) × (q ≡ ok b)) × Dispatch r.experiment_id w.calls w.store w'.calls w'.store
  dispatch_quiet r w found = elim (Bool-cases (is_some r.dispatched_at || terminal r.status)) [
    | inl done ↦ unfold dispatch pure in rw done ((false, refl), stays r found (rw done refl))
    | inr pending ↦
        let (sent, calls, store) = dispatch_pending c quiet r r w pending found in
        let (named, is_marked) = mark_lem (turn c (tick c (tick c w))).times r in
        let message : is_message r (enqueue (message_of c quiet r w)) ≡ true =
          ground (arith, eq_refl r.job_id, eq_refl r.experiment_id) in
        (
          (true, sent),
          rw (calls, store) (goes_out r (mark_of c quiet r w) _ found message named is_marked),
        )
  ]

  -- One pass of the loop of `reconcile_pending`.
  step_quiet :
      (r : ExperimentRecord F) (ids : List String) (n : ℕ) (w : World F)
      → lookup r.experiment_id w.store ≡ some r
      → (v : World F) × (m : ℕ) × (dispatch_each c (r.experiment_id ∷ ids) n w
          ≡ dispatch_each c ids m v)
        × Dispatch r.experiment_id w.calls w.store v.calls v.store
  unfolding dispatch_each tick
  step_quiet r ids n w found =
      let ((b, returned), effect) = dispatch_quiet r (tick c w) found in
      let v = (dispatch c r (tick c w)).1 in
      (
        v,
        (if b then n + 1 else n),
        bind_ok _ _ w (r, (turn c w).times.guarded_at) (tick c w)
              (fetch_quiet (for_record r.experiment_id c) quiet w r found)
            ∙ bind_ok _ _ (tick c w) b v (rw returned refl),
        effect,
      )

abbrev pub has : String → List String → Bool
has id [] = false
has id (j ∷ ids) = str_eq j id || has id ids

module _ {F : Type 0} where
  -- What a sequence of dispatches of the records `ids` leads to, from `w`.
  record Swept (ids : List String) (w : World F) (q : Result ℕ) (w' : World F) : Type 0 where
    ended : (n : ℕ) × (q ≡ ok n)
    kept : (r : ExperimentRecord F) → Dispatched r w.calls w.store → Dispatched r w'.calls w'.store
    reached :
        (r : ExperimentRecord F)
        → lookup r.experiment_id w.store ≡ some r
        → is_pending r ≡ true
        → has r.experiment_id ids ≡ true
        → Dispatched r w'.calls w'.store

  abbrev AreThere : List String → Store F → Type 0
  AreThere ids s = All (λ id. is_some (lookup id s) ≡ true) ids

  Dispatch-AreThere :
      {id : String} {calls calls' : List (Call F)} {s s' : Store F} (ids : List String)
      → Dispatch id calls s calls' s'
      → AreThere ids s
      → AreThere ids s'
  Dispatch-AreThere [] effect there = tt
  Dispatch-AreThere (id ∷ ids) effect (at, rest) =
      (Dispatch-there id effect at, Dispatch-AreThere ids effect rest)

  reach_next :
      (r : ExperimentRecord F) (ids : List String) (w v w' : World F) (a : Result ℕ)
      → Dispatch r.experiment_id w.calls w.store v.calls v.store
      → Swept ids v a w'
      → Swept (r.experiment_id ∷ ids) w a w'
  reach_next r ids w v w' a effect rest = record {
    ended = rest.ended;
    kept = λ q d. rest.kept q (Dispatch-Dispatched effect d);
    reached = λ q here pending named. elim (Bool-cases (str_eq r.experiment_id q.experiment_id)) [
      | inl same ↦
          let own = (eq_iff r.experiment_id q.experiment_id).0 same in
          rest.kept q (
            Dispatch-own q (subst (λ id. Dispatch id w.calls w.store v.calls v.store) own effect)
              here pending)
      | inr apart ↦
          rest.reached q (Dispatch-apart q.experiment_id apart effect ∙ here) pending
            (ground (arith, named, apart))
    ];
  }

module _ {F : Type 0} ⦃d : Double F⦄ (c : Context F) (quiet : IsQuiet c.outside) where
  sweep_next :
      (r : ExperimentRecord F) (id : String) (ids : List String) (n : ℕ) (w : World F)
      → r.experiment_id ≡ id
      → lookup id w.store ≡ some r
      → IsKeyed w.store
      → AreThere ids w.store
      → ((m : ℕ) (v : World F)
          → IsKeyed v.store
          → AreThere ids v.store
          → Swept ids v (dispatch_each c ids m v).0 (dispatch_each c ids m v).1)
      → Swept (id ∷ ids) w (dispatch_each c (id ∷ ids) n w).0 (dispatch_each c (id ∷ ids) n w).1
  sweep_next r id ids n w named found keyed there again =
      subst
        (λ x. Swept (x ∷ ids) w (dispatch_each c (x ∷ ids) n w).0 (dispatch_each c (x ∷ ids) n w).1)
        named
        (let (v, m, same, effect) =
            step_quiet c quiet r ids n w
              (subst (λ x. lookup x w.store ≡ some r) (sym named) found) in
          rw same (
            reach_next r ids w v _ _ effect
              (again m v (Dispatch-IsKeyed effect keyed) (Dispatch-AreThere ids effect there))))

  sweep :
      (ids : List String) (n : ℕ) (w : World F)
      → IsKeyed w.store
      → AreThere ids w.store
      → Swept ids w (dispatch_each c ids n w).0 (dispatch_each c ids n w).1
  sweep [] n w keyed there =
      unfold dispatch_each pure in
      record { ended = (n, refl); kept = λ r d. d; reached = λ r here pending named. cc named }
  sweep (id ∷ ids) n w keyed (at, there) = elim (Option-cases (lookup id w.store)) [
    | inl missing ↦ cc (at, missing)
    | inr (r, found) ↦
        sweep_next r id ids n w (keyed id r found) found keyed there (λ m v. sweep ids m v)
  ]

  -- The names of a store are there, and each record is under one of them.
  names-AreThere :
      (s t : Store F)
      → ((id : String) → is_some (lookup id t) ≡ true → is_some (lookup id s) ≡ true)
      → AreThere (map (λ e. e.0) t) s
  unfolding lookup
  names-AreThere s [] inside = tt
  names-AreThere s ((id, r) ∷ t) inside = (
    inside id (ground (arith, eq_refl id)),
    names-AreThere s t (λ j h. inside j (ground (arith, h))),
  )

  has-names :
      (id : String) (r : ExperimentRecord F) (s : Store F)
      → lookup id s ≡ some r
      → has id (map (λ e. e.0) s) ≡ true
  unfolding lookup
  has-names id r [] found = cc
  has-names id r ((j, q) ∷ s) found = ground (arith, has-names id r s)

  -- In an environment that does nothing else, with each record stored under its own name,
  -- `reconcile_pending` returns, and then every job that was pending before has a message in the
  -- queue and the mark on its record.
  pub reconcile_pending-Dispatched :
      (w : World F)
      → IsKeyed w.store
      → let (q, w') = reconcile_pending c w in
        ((n : ℕ) × (q ≡ ok n))
        × ((r : ExperimentRecord F)
            → lookup r.experiment_id w.store ≡ some r
            → is_pending r ≡ true
            → Dispatched r w'.calls w'.store)
  unfolding reconcile_pending tick
  reconcile_pending-Dispatched w keyed =
      let names = map (λ e. e.0) w.store in
      let swept = sweep names 0 (tick c w) keyed (names-AreThere w.store w.store (λ id h. h)) in
      rw (bind_ok _ _ w names (tick c w) (record_names_quiet c quiet w)) (
        swept.ended,
        λ r here pending. swept.reached r here pending (has-names r.experiment_id r w.store here),
      )
