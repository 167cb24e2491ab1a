-- ===== src/Artifacts/Stores.antt =====
-- The artifact stores of artifacts.py: a directory, and a blob container. `json.dumps` with its
-- encoding is a parameter, and so are the bytes.
pub mod Local
pub mod Azure
use Prim.Native.String.{◌++◌}
use azure_ml_optimization_pl.Base.{String}
use azure_ml_optimization_pl.Errors.{Result, ok, err}
use azure_ml_optimization_pl.Exec.{Exec}

-- A store with the content `S`: `put_json` is the same in both.
module _ {S B : Type 0} (put_bytes : (id name : String) → B → Exec S String) where
  abbrev put_encoded : (id name : String) → Result B → Exec S String
  put_encoded id name (ok value) s = put_bytes id name value s
  put_encoded id name (err e) s = (err e, s)

  unfoldable pub put_json :
      {V : Type 0} (dumps : V → Result B) → (id name : String) → V → Exec S String
  put_json dumps id name value = put_encoded id name (dumps value)
