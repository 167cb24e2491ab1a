-- ===== src/Cli/Starts.antt =====
-- The start of the worker of cli.py, over all settings.
use azure_ml_optimization_pl.Base.{
  ℕ, String, ◌≡◌, refl, ◌↔◌, ◌⊎◌, ◌∙◌, ap, subst, List, [], ◌∷◌, ◌++◌, Bool, true, false, not, ◌&&◌,
  ◌||◌, leb, Bool-cases, inl, inr, arith,
}
use azure_ml_optimization_pl.Double.{Double}
use azure_ml_optimization_pl.Errors.{Result, ok, err}
use azure_ml_optimization_pl.Exec.{pure, ◌>>=◌ as bind, continue}
use azure_ml_optimization_pl.Config.{
  Settings, StorageBackend, QueueBackend, filesystem, memory, present,
}
use azure_ml_optimization_pl.Factory.{
  repository_from_settings, artifacts_from_settings, queue_from_settings, engine_from_settings,
  blob_service, queue_client, is_production, storage_at, jobs_at,
}
use azure_ml_optimization_pl.Cli.{
  Effect, Process, perform, required, monitor, serve_metrics, opened, worker, run_forever,
}

-- Whether a result has a value.
abbrev pub succeeds {ℓ} : {A : Type ℓ} → Result A → Bool
succeeds (ok a) = true
succeeds (err e) = false

-- The call of the worker's loop.
abbrev pub is_loop : Effect → Bool
is_loop (run_forever repository queue artifacts) = true
is_loop _ = false

-- The loop is among the calls.
abbrev pub reaches : List Effect → Bool
reaches [] = false
reaches (x ∷ xs) = is_loop x || reaches xs

reaches-append : (xs : List Effect) (x : Effect) → reaches (xs ++ x ∷ []) ≡ reaches xs || is_loop x
reaches-append [] x = ground arith
reaches-append (y ∷ xs) x = ground (arith, reaches-append xs x)

-- Wherever `m` starts, it returns exactly if `b`, and calls no loop.
record Yields {A : Type 0} (m : Process A) (b : Bool) : Type 0 where
  at : (s : List Effect) → (succeeds (m s).0 ≡ b) × (reaches (m s).1 ≡ reaches s)

-- `m` gets to the loop exactly if `b`.
record Reaches {A : Type 0} (m : Process A) (b : Bool) : Type 0 where
  at : (s : List Effect) → reaches s ≡ false → reaches (m s).1 ≡ b

module _ {A B : Type 0} where
  continue_lem :
      (r : Result A) (f : A → Process B) (s : List Effect) (b : Bool)
      → ((a : A) → Yields (f a) b)
      → (succeeds (continue r f s).0 ≡ (succeeds r && b)) × (reaches (continue r f s).1 ≡ reaches s)
  continue_lem (ok a) f s b k = (k a).at s
  continue_lem (err e) f s b k = (refl, refl)

  Yields-bind :
      {a b : Bool} (m : Process A) (f : A → Process B)
      → Yields m a
      → ((x : A) → Yields (f x) b)
      → Yields (bind m f) (a && b)
  unfolding bind
  Yields-bind {b} m f h k = record {
    at = λ s.
        let (ends, calls) = continue_lem (m s).0 f (m s).1 b k in
        (ends ∙ ap (λ x. x && b) (h.at s).0, calls ∙ (h.at s).1);
  }

  continue-reaches :
      (r : Result A) (f : A → Process B) (s : List Effect) (b : Bool)
      → ((a : A) → Reaches (f a) b)
      → reaches s ≡ false
      → reaches (continue r f s).1 ≡ (succeeds r && b)
  continue-reaches (ok a) f s b k h = (k a).at s h
  continue-reaches (err e) f s b k h = h

  Reaches-bind :
      {a b : Bool} (m : Process A) (f : A → Process B)
      → Yields m a
      → ((x : A) → Reaches (f x) b)
      → Reaches (bind m f) (a && b)
  unfolding bind
  Reaches-bind {b} m f h k = record {
    at = λ s quiet.
        let (ends, calls) = h.at s in
        continue-reaches (m s).0 f (m s).1 b k (calls ∙ quiet) ∙ ap (λ x. x && b) ends;
  }

Yields-pure : {A : Type 0} (a : A) → Yields (pure a) true
unfolding pure
Yields-pure a = record { at = λ s. (refl, refl) }

Yields-required :
    {A : Type 0} (answers : Effect → Result (Unit {0})) (r : Result A)
    → Yields (required answers r) (succeeds r)
Yields-required answers (ok a) = record { at = λ s. (refl, refl) }
Yields-required answers (err e) = record { at = λ s. (refl, refl) }

and_true : (b : Bool) → (b && true) ≡ b
and_true true = refl
and_true false = refl

-- No call of the process raises, but perhaps that of its loop.
abbrev pub IsSmooth : (Effect → Result (Unit {0})) → Type 0
IsSmooth answers = (x : Effect) → is_loop x ≡ false → answers x ≡ ok tt

module _ (answers : Effect → Result (Unit {0})) where
  -- The loop is reached, whether it returns or raises.
  Reaches-loop : (x : Effect) → is_loop x ≡ true → Reaches (perform answers x) true
  unfolding perform
  Reaches-loop x loops = record { at = λ s quiet. ground (arith, reaches-append s x, loops, quiet) }

module _ (answers : Effect → Result (Unit {0})) (smooth : IsSmooth answers) where
  Yields-perform : (x : Effect) → is_loop x ≡ false → Yields (perform answers x) true
  unfolding perform
  Yields-perform x apart = record {
    at = λ s. (rw (smooth x apart) refl, ground (arith, reaches-append s x, apart));
  }

  Yields-monitor : (s : Settings) → Yields (monitor answers s) true
  unfolding monitor
  Yields-monitor s = elim (Bool-cases (present s.applicationinsights_connection_string)) [
    | inl given ↦ rw given (Yields-perform _ refl)
    | inr none_given ↦ rw none_given (Yields-pure tt)
  ]

  Yields-serve_metrics :
      (has_prometheus : Bool) (port : ℕ) → Yields (serve_metrics answers has_prometheus port) true
  unfolding serve_metrics
  Yields-serve_metrics has_prometheus port = elim (Bool-cases (leb port 0 || not has_prometheus)) [
    | inl off ↦ rw off (Yields-pure tt)
    | inr on ↦ rw on (Yields-perform _ refl)
  ]

  Yields-opened :
      {A : Type 0} (effect : A → Effect) (r : Result A)
      → ((a : A) → is_loop (effect a) ≡ false)
      → Yields (opened answers effect r) (succeeds r)
  unfolding opened
  Yields-opened effect r apart = subst (Yields (opened answers effect r)) (and_true (succeeds r)) (
      Yields-bind _ _ (Yields-required answers r)
        λ a. Yields-bind _ _ (Yields-perform (effect a) (apart a)) λ u. Yields-pure a)

  module _ {F : Type 0} ⦃d : Double F⦄ (random : (seed index : ℕ) → F) (has_prometheus : Bool)
      (s : Settings) where
    abbrev repository_made : Bool
    repository_made = succeeds (repository_from_settings s)

    abbrev queue_made : Bool
    queue_made = succeeds (queue_from_settings s)

    abbrev engine_there : Bool
    engine_there = succeeds (engine_from_settings random s)

    abbrev artifacts_made : Bool
    artifacts_made = succeeds (artifacts_from_settings s)

    Reaches-worker :
        Reaches
          (worker answers random has_prometheus s)
          (repository_made && (queue_made && (engine_there && (artifacts_made && true))))
    unfolding worker
    Reaches-worker = Reaches-bind _ _ (Yields-perform _ refl) λ u.
        Reaches-bind _ _ (Yields-monitor s) λ u.
          Reaches-bind _ _ (Yields-serve_metrics has_prometheus s.worker_metrics_port) λ u.
            Reaches-bind _ _ (Yields-opened _ (repository_from_settings s) (λ a. refl))
              λ repository.
                Reaches-bind _ _ (Yields-opened _ (queue_from_settings s) (λ a. refl)) λ queue.
                  Reaches-bind _ _ (Yields-required answers (engine_from_settings random s))
                    λ engine.
                      Reaches-bind _ _ (Yields-opened _ (artifacts_from_settings s) (λ a. refl))
                        λ artifacts.
                          Reaches-bind _ _ (Yields-perform _ refl) λ u. Reaches-loop answers _ refl

-- Where the settings' storage account is named, or not needed.
abbrev pub HasAccount : Settings → Type 0
HasAccount s =
    (present s.azure_storage_connection_string ≡ true)
    ⊎ (present s.azure_storage_account_url ≡ true)

abbrev pub IsLocal : Settings → Type 0
IsLocal s =
    (s.repository_backend ≡ filesystem)
    × (s.artifact_backend ≡ filesystem)
    × (s.queue_backend ≡ memory)

storage_iff :
    (backend : StorageBackend) (path name : String) (s : Settings)
    → (succeeds (storage_at backend path name (blob_service s)) ≡ true)
      ↔ ((backend ≡ filesystem) ⊎ HasAccount s)
unfolding blob_service
storage_iff backend path name s = ground arith

jobs_iff :
    (backend : QueueBackend) (timeout : ℕ) (s : Settings)
    → (succeeds (jobs_at backend timeout (queue_client s)) ≡ true)
      ↔ ((backend ≡ memory) ⊎ HasAccount s)
unfolding queue_client
jobs_iff backend timeout s = ground arith

module _ {F : Type 0} ⦃d : Double F⦄ (random : (seed index : ℕ) → F) (s : Settings) where
  engine_iff :
      (succeeds (engine_from_settings random s) ≡ true)
      ↔ ((is_production s.environment ≡ false) ⊎ (s.allow_demo_engine ≡ true))
  unfolding engine_from_settings
  engine_iff = ground arith

  parts_iff :
      (succeeds (repository_from_settings s)
          && (succeeds (queue_from_settings s)
              && (succeeds (engine_from_settings random s)
                  && (succeeds (artifacts_from_settings s) && true)))
        ≡ true)
      ↔ ((IsLocal s ⊎ HasAccount s)
          × ((is_production s.environment ≡ false) ⊎ (s.allow_demo_engine ≡ true)))
  unfolding repository_from_settings artifacts_from_settings queue_from_settings
  parts_iff = ground (
    arith,
    storage_iff s.repository_backend s.state_path s.azure_state_container s,
    storage_iff s.artifact_backend s.artifact_path s.azure_artifact_container s,
    jobs_iff s.queue_backend s.queue_visibility_timeout_seconds s,
    engine_iff,
  )

  -- If none of the calls but the loop's own raises: the worker of the command line gets to its loop
  -- exactly when everything is local or the storage account is named, and the demo engine is
  -- allowed or the environment is not the production.
  pub worker_iff :
      (answers : Effect → Result (Unit {0})) (has_prometheus : Bool)
      → IsSmooth answers
      → (reaches (worker answers random has_prometheus s []).1 ≡ true) ↔ (
          (IsLocal s ⊎ HasAccount s)
          × ((is_production s.environment ≡ false) ⊎ (s.allow_demo_engine ≡ true)))
  worker_iff answers has_prometheus smooth =
      let starts = (Reaches-worker answers smooth random has_prometheus s).at [] refl in
      rw starts parts_iff
