-- ===== src/Worker/Completion/Steps.antt =====
-- What the writes of a worker under its own lasting lease do to the record.
use azure_ml_optimization_pl.Base.{
  ℕ, ◌+◌, ◌<◌, ◌≤◌, ◌≡◌, refl, Bool, true, false, not, ◌||◌, Option, none, some, String, arith,
  Dict, ◌∙◌, if◌then◌else◌,
}
use text.Mathlib.TextPositions.{eq_refl}
use azure_ml_optimization_pl.Double.{Double}
use azure_ml_optimization_pl.Errors.{ok, Error, Result, check}
use azure_ml_optimization_pl.Domain.{
  ExperimentRecord, EngineResult, MetricPoint, running, terminal, ExperimentStatus, Value,
  ExperimentConfig,
}
use azure_ml_optimization_pl.Repository.{Change, Times}
use azure_ml_optimization_pl.Protocol.{
  Update, claims, renews, runs, points, completes, marks, change_of,
}
use azure_ml_optimization_pl.World.{Context}
use azure_ml_optimization_pl.World.Calm.{bumped}
use azure_ml_optimization_pl.Worker.Changes.{
  guarded, claim, renew_lease, set_run, mark_tracking_failed, record_point, complete, is_owner,
  lapsed, seconds,
}
use azure_ml_optimization_pl.Worker.Completion.{IsInTime, IsRunning, IsFresh, IsCompleted}

module _ {F : Type 0} ⦃d : Double F⦄ (c : Context F) where
  -- The update returns, keeps the version, and with it counted the record is one of `Q`.
  abbrev pub Gives : (ExperimentRecord F → Type 0) → Update F → ℕ → ExperimentRecord F → Type 0
  Gives Q u n x =
      let t = (c.outside n).times in
      (y : ExperimentRecord F) × (change_of u t x ≡ ok y) × (y.version ≡ x.version) × Q (bumped t y)

  unclaimed :
      (s : ExperimentStatus) (l : Option ℕ) (now : ℕ)
      → s ≡ ExperimentStatus.queued
      → l ≡ none
      → terminal s || not (lapsed l now) ≡ false
  unclaimed s l now a b = rw (a, b) refl

  attempts_below : (m n : ℕ) → m < n → m + 1 ≤ n
  attempts_below m n h = omega arith

  check_open : {A : Type 0} (b : Bool) (e : Error) (r : Result A) → b ≡ false → check b e r ≡ r
  check_open b e r h = rw h refl

  pub same-IsRunning :
      (x y : ExperimentRecord F)
      → y.lease_owner ≡ x.lease_owner
      → y.lease_expires_at ≡ x.lease_expires_at
      → y.status ≡ x.status
      → y.cancel_requested ≡ x.cancel_requested
      → y.attempts ≡ x.attempts
      → IsRunning c x
      → IsRunning c y
  same-IsRunning x y owner lease status cancel attempts h = record {
    owner = owner ∙ h.owner;
    expiry = h.expiry;
    leased = lease ∙ h.leased;
    lasts = h.lasts;
    live = status ∙ h.live;
    wanted = cancel ∙ h.wanted;
    allowed = rw attempts h.allowed;
  }

  is_owner_self : (o : Option String) → o ≡ some c.owner → is_owner o c.owner ≡ true
  is_owner_self o h = rw h (eq_refl c.owner)

  lapsed_not :
      (o : Option ℕ) (expiry now : ℕ) → o ≡ some expiry → now < expiry → lapsed o now ≡ false
  lapsed_not o expiry now h later = rw h (ground (arith, later))

  open_lease :
      (o : Option String) (s : ExperimentStatus) (l : Option ℕ) (now expiry : ℕ)
      → o ≡ some c.owner
      → s ≡ running
      → l ≡ some expiry
      → now < expiry
      → not (is_owner o c.owner) || terminal s || lapsed l now ≡ false
  open_lease o s l now expiry owner live leased lasts =
      rw (is_owner_self o owner, live, lapsed_not l expiry now leased lasts) refl

  -- The test of `cancelled`.
  pub held_lease :
      (x : ExperimentRecord F) (n : ℕ)
      → IsRunning c x
      → not (is_owner x.lease_owner c.owner)
          || lapsed x.lease_expires_at (c.outside n).times.guarded_at
        ≡ false
  held_lease x n h = rw (is_owner_self _ h.owner, lapsed_not _ _ _ h.leased (h.lasts n)) refl

  guarded_running :
      (change : Change F) (n : ℕ) (x : ExperimentRecord F)
      → IsRunning c x
      → guarded c.owner change (c.outside n).times x ≡ change (c.outside n).times x
  unfolding guarded
  guarded_running change n x h =
      check_open _ _ _ (open_lease _ _ _ _ _ h.owner h.live h.leased (h.lasts n))

  pub points-Gives :
      (m : MetricPoint F) (n : ℕ) (x : ExperimentRecord F)
      → IsRunning c x
      → Gives (IsRunning c) (points c.owner m) n x
  unfolding change_of record_point
  points-Gives m n x h =
      (_, guarded_running _ n x h, refl, same-IsRunning x _ refl refl refl refl refl h)

  pub runs-Gives :
      (run_id : String) (n : ℕ) (x : ExperimentRecord F)
      → IsRunning c x
      → Gives (IsRunning c) (runs c.owner run_id) n x
  unfolding change_of set_run
  runs-Gives run_id n x h =
      (_, guarded_running _ n x h, refl, same-IsRunning x _ refl refl refl refl refl h)

  pub renews-Gives :
      (in_time : IsInTime c) (n : ℕ) (x : ExperimentRecord F)
      → IsRunning c x
      → Gives (IsRunning c) (renews c.owner c.timeout) n x
  unfolding change_of renew_lease
  renews-Gives in_time n x h = (
    _,
    guarded_running _ n x h,
    refl,
    record {
      owner = h.owner;
      expiry = (c.outside n).times.changed_at + seconds c.timeout;
      leased = refl;
      lasts = λ m. in_time.renewed m n;
      live = h.live;
      wanted = h.wanted;
      allowed = h.allowed;
    },
  )

  pub claims-Gives :
      (in_time : IsInTime c) (k : ExperimentConfig F) (n : ℕ) (x : ExperimentRecord F)
      → IsFresh c k x
      → Gives (λ y. IsRunning c y × (y.configuration ≡ k)) (claims c.owner c.timeout) n x
  unfolding change_of claim
  claims-Gives in_time k n x h = (
    _,
    check_open _ _ _ (unclaimed _ _ _ h.queued_up h.unleased),
    refl,
    (
      record {
        owner = refl;
        expiry = (c.outside n).times.guarded_at + seconds c.timeout;
        leased = refl;
        lasts = λ m. in_time.claimed m n;
        live = refl;
        wanted = h.wanted;
        allowed = attempts_below x.attempts c.max_attempts h.allowed;
      },
      h.configured,
    ),
  )

  pub completes-Gives :
      (P : EngineResult F → Type 0) (result : EngineResult F) (uris : Dict String) (duration : F)
      → P result
      → (n : ℕ) (x : ExperimentRecord F) → IsRunning c x
      → Gives (IsCompleted c P) (completes c.owner result uris duration) n x
  unfolding change_of complete
  completes-Gives P result uris duration good n x h = (
    _,
    guarded_running _ n x h ∙ check_open _ _ _ h.wanted,
    refl,
    record { status = refl; result = result; good = good; recommended = refl },
  )

  -- `mark` changes at most the metadata.
  mark_as :
      (b : Bool) (x : ExperimentRecord F) (md : Dict (Value F))
      → ok (if b then record x { result_metadata = md } else x)
        ≡ ok (record x { result_metadata = if b then md else x.result_metadata })
  mark_as true x md = refl
  mark_as false x md = refl

  pub marks-Gives :
      (Q : ExperimentRecord F → Type 0)
      → ((x : ExperimentRecord F) (md : Dict (Value F)) (t : Times)
          → Q x
          → Q (bumped t (record x { result_metadata = md })))
      → (n : ℕ) (x : ExperimentRecord F) → Q x
      → Gives Q (marks c.owner) n x
  unfolding change_of mark_tracking_failed
  marks-Gives Q closed n x h = (_, mark_as _ x _, refl, closed x _ (c.outside n).times h)
