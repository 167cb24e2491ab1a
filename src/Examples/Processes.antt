-- ===== src/Examples/Processes.antt =====
-- The theorems on the start of a process at concrete settings.
use azure_ml_optimization_pl.Base.{ℕ, ◌≡◌, refl, ◌↔◌, ◌⊎◌, true, false, []}
use azure_ml_optimization_pl.Base.Int.{ℤ}
use azure_ml_optimization_pl.Double.{Double, fixed_point}
use azure_ml_optimization_pl.Errors.{Result, ok, err, other}
use azure_ml_optimization_pl.Config.{Settings, defaults, azure_blob}
use azure_ml_optimization_pl.Cli.{Effect, run_forever, worker}
use azure_ml_optimization_pl.Cli.Starts.{reaches, IsSmooth, HasAccount, IsLocal, worker_iff}

-- The loop is killed.
abbrev killed : Effect → Result (Unit {0})
killed (run_forever repository queue artifacts) = err (other "SystemExit")
killed _ = ok tt

killed-IsSmooth : IsSmooth killed
killed-IsSmooth (run_forever repository queue artifacts) h = cc
killed-IsSmooth x h = refl

abbrev zeros : (seed index : ℕ) → ℤ
zeros seed index = Double.literal fixed_point 0 0

-- Records in a container, and no account.
abbrev no_account : Settings
no_account = record defaults { repository_backend = azure_blob }

worker_iff_example :
    (reaches (worker killed zeros true no_account []).1 ≡ true)
    ↔ ((IsLocal no_account ⊎ HasAccount no_account) × ((false ≡ false) ⊎ (true ≡ true)))
worker_iff_example = worker_iff zeros no_account killed true killed-IsSmooth
