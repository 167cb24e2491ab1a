-- ===== src/Scripts/Secrets.antt =====
-- scripts/initialize_azure_secrets.py: the secrets that are missing in the key vault are set. The
-- calls of `az` are parameters, and may fail; so is the random key.
pub mod Vault
use azure_ml_optimization_pl.Base.{
  String, str_eq, Bool, true, false, Dict, lookup, insert, map, Option, none, some, List, [], ◌∷◌,
  if◌then◌else◌,
}
use azure_ml_optimization_pl.Errors.{Error, Result, ok, err}
use azure_ml_optimization_pl.Exec.{Exec, pure, ◌>>=◌, ◌>>◌}
use azure_ml_optimization_pl.Protocol.Record.{is_some}
use azure_ml_optimization_pl.World.{Answer, returns, fails_before, fails_after, answered}

-- The key vault, by the names of its secrets.
abbrev pub Vault : Type 0
Vault = Dict String

-- How the calls of a run go, and what they return: the new key, and the connection string of
-- Application Insights.
pub record Calls : Type 0 where
  pub at_list : Answer
  pub at_show : Answer
  pub at_set : (name : String) → Answer
  pub token : String
  pub connection_string : String

abbrev pub api_key : String
api_key = "api-key"

abbrev pub insights_key : String
insights_key = "application-insights-connection-string"

-- `az keyvault secret set`
abbrev pub set_under : Answer → (name value : String) → Exec Vault (Unit {0})
set_under returns name value v = (ok tt, insert name value v)
set_under (fails_before e) name value v = (err e, v)
set_under (fails_after e) name value v = (err e, insert name value v)

module _ (calls : Calls) where
  -- The set `existing`, from the vault at the start.
  unfoldable pub existing : Exec Vault Vault
  existing v = (answered calls.at_list (ok v), v)

  unfoldable pub value_for : String → Exec Vault String
  value_for name v =
      if str_eq name api_key
      then (ok calls.token, v)
      else (answered calls.at_show (ok calls.connection_string), v)

  unfoldable pub set_missing : String → Bool → Exec Vault (Unit {0})
  set_missing name true = pure tt
  set_missing name false = do value ← value_for name; set_under (calls.at_set name) name value

  -- The loop over the names, with `existing`.
  unfoldable pub initialize_each : List String → Vault → Exec Vault (Unit {0})
  unfolding value_for set_missing
  initialize_each [] there = pure tt
  initialize_each (name ∷ names) there =
      set_missing name (is_some (lookup name there)) >> initialize_each names there

  unfoldable pub main : Exec Vault (Unit {0})
  unfolding existing
  main = do there ← existing; initialize_each (api_key ∷ insights_key ∷ []) there
