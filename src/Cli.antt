-- ===== src/Cli.antt =====
-- cli.py, healthcheck.py, and the parts of telemetry.py that the processes start: what a process
-- does before its loop or its server. Each of its calls may raise.
pub mod Starts
use azure_ml_optimization_pl.Base.{
  ℕ, String, Option, none, some, List, [], ◌∷◌, ◌++◌, Bool, not, ◌||◌, leb, if◌then◌else◌,
}
use azure_ml_optimization_pl.Double.{Double}
use azure_ml_optimization_pl.Errors.{Result, ok, err}
use azure_ml_optimization_pl.Exec.{Exec, pure, raise, ◌>>=◌, ◌>>◌}
use azure_ml_optimization_pl.Config.{Settings, present}
use azure_ml_optimization_pl.Domain.{ExperimentConfig}
use azure_ml_optimization_pl.Engine.{Run}
use azure_ml_optimization_pl.Factory.{
  Storage, Jobs, repository_from_settings, artifacts_from_settings, queue_from_settings,
  engine_from_settings,
}

-- What the processes call. A repository, a store or a queue is opened when it is constructed.
pub data Effect : Type 0 where
  configure_logging : (level : String) → Effect
  configure_azure_monitor : (connection_string : Option String) → Effect
  start_http_server : (port : ℕ) → Effect
  open_repository open_artifacts : Storage → Effect
  open_queue : Jobs → Effect
  repository_health artifacts_health : Storage → Effect
  engine_health install_signal_handlers : Effect
  run_forever : Storage → Jobs → Storage → Effect
  run_server : (host : String) (port : ℕ) → Effect

abbrev pub Process : Type 0 → Type 0
Process A = Exec (List Effect) A

module _ (answers : Effect → Result (Unit {0})) where
  unfoldable pub perform : Effect → Process (Unit {0})
  perform x effects = (answers x, effects ++ x ∷ [])

  abbrev pub required : {A : Type 0} → Result A → Process A
  required (ok a) effects = (ok a, effects)
  required (err e) effects = (err e, effects)

  -- `configure_azure_monitor`
  unfoldable pub monitor : Settings → Process (Unit {0})
  monitor s =
      if not (present s.applicationinsights_connection_string)
      then pure tt
      else perform (configure_azure_monitor s.applicationinsights_connection_string)

  module _ (has_prometheus : Bool) where
    -- `start_worker_metrics_server`
    unfoldable pub serve_metrics : (port : ℕ) → Process (Unit {0})
    serve_metrics port =
        if leb port 0 || not has_prometheus then pure tt else perform (start_http_server port)

  -- `from_settings`, and the constructor.
  unfoldable pub opened : {A : Type 0} → (A → Effect) → Result A → Process A
  opened effect r = required r >>= λ a. perform (effect a) >>= λ u. pure a

  unfoldable pub api : Settings → Process (Unit {0})
  api s =
      perform (configure_logging s.log_level) >>= λ u. perform (run_server s.api_host s.api_port)

  -- The part of `create_app` before the routes, where it is called without arguments.
  unfoldable pub create_app : Settings → Process (Storage × Jobs)
  create_app s = monitor s >>= λ u.
      opened open_repository (repository_from_settings s) >>= λ repository.
      opened open_queue (queue_from_settings s) >>= λ queue. pure (repository, queue)

  module _ {F : Type 0} ⦃d : Double F⦄ (random : (seed index : ℕ) → F) (has_prometheus : Bool) where
    engine_made : Settings → Process (ExperimentConfig F → Run F)
    engine_made s = required (engine_from_settings random s)

    unfoldable pub worker : Settings → Process (Unit {0})
    unfolding engine_made
    worker s = perform (configure_logging s.log_level) >>= λ u. monitor s >>= λ u.
        serve_metrics has_prometheus s.worker_metrics_port >>= λ u.
        opened open_repository (repository_from_settings s) >>= λ repository.
        opened open_queue (queue_from_settings s) >>= λ queue. engine_made s >>= λ engine.
        opened open_artifacts (artifacts_from_settings s) >>= λ artifacts.
        perform install_signal_handlers >>= λ u. perform (run_forever repository queue artifacts)

    -- `main` of healthcheck.py.
    unfoldable pub probe : Settings → Process (Unit {0})
    unfolding engine_made
    probe s = opened open_repository (repository_from_settings s) >>= λ repository.
        perform (repository_health repository) >>= λ u.
        opened open_artifacts (artifacts_from_settings s) >>= λ artifacts.
        perform (artifacts_health artifacts) >>= λ u.
        engine_made s >>= λ engine. perform engine_health
