-- ===== src/Factory/Backends.antt =====
-- The endpoints of the storage and of the queue in factory.py.
use Prim.Native.Char.{Char, code}
use Prim.Native.String.{◌++◌}
use text.Mathlib.TextLemmas.{nil-append, cons-append, append-eq-nil_iff}
use azure_ml_optimization_pl.Base.{
  String, ◌≡◌, refl, sym, ap, true, false, some, arith, replace_from, str_eq, eq_iff, ◌∙◌, replace,
  starts_with, lacks, Bool-cases, inl, inr, ◌==◌,
}
use azure_ml_optimization_pl.Base.Texts.Segments.{lacks-cons}
use azure_ml_optimization_pl.Errors.{ok}
use azure_ml_optimization_pl.Config.{Settings, azure_queue, present}
use azure_ml_optimization_pl.Factory.{
  of_account_url, in_azure, queue_url, queue_client, queue_from_settings,
}

starts_with-other :
    (c : Char) (s : String) → (code c == 46) ≡ false → starts_with (String.◌∷◌ c s) ".blob." ≡ false
unfolding starts_with
starts_with-other c s h = ground arith

-- Where a text has no dot, there is no occurrence of ".blob.".
replace_from-append :
    (s rest : String)
    → lacks 46 s ≡ true
    → replace_from ".blob." ".queue." 0 (s ++ rest) ≡ s ++ replace_from ".blob." ".queue." 0 rest
unfolding replace_from
replace_from-append String.[] rest h = rw (nil-append rest) (sym (nil-append _))
replace_from-append (String.◌∷◌ c s) rest h =
    let (other, others) = lacks-cons 46 c s h in
    rw (cons-append, cons-append, starts_with-other c (s ++ rest) other, replace_from)
      (ap (String.◌∷◌ c) (replace_from-append s rest others))

append-present : (s t : String) → str_eq s "" ≡ false → present (some (s ++ t)) ≡ true
append-present s t h = elim (Bool-cases (str_eq (s ++ t) "")) [
  | inl empty ↦
      let (left, right) = append-eq-nil_iff.0 ((eq_iff (s ++ t) "").0 empty) in
      cc ((eq_iff s "").1 left, h)
  | inr filled ↦ rw filled refl
]

queue_url-account :
    (account : String)
    → lacks 46 account ≡ true
    → queue_url (some ("https://" ++ (account ++ ".blob.core.windows.net")))
      ≡ "https://" ++ (account ++ ".queue.core.windows.net")
unfolding queue_url replace lacks
queue_url-account account dots =
    replace_from-append "https://" (account ++ ".blob.core.windows.net") refl
    ∙ ap (λ u. "https://" ++ u)
        (replace_from-append account ".blob.core.windows.net" dots
          ∙ unfold replace_from starts_with in refl)

-- With an account URL of a storage account, whose name has no dot, and no connection string, the
-- Azure queue is made at the queue URL of the same account.
pub queue_from_settings-account :
    (s : Settings) (account : String)
    → lacks 46 account ≡ true
    → present s.azure_storage_connection_string ≡ false
    → s.azure_storage_account_url ≡ some ("https://" ++ (account ++ ".blob.core.windows.net"))
    → s.queue_backend ≡ azure_queue
    → queue_from_settings s
      ≡ ok (
          in_azure
            (of_account_url
              ("https://" ++ (account ++ ".queue.core.windows.net"))
              s.azure_queue_name)
            s.queue_visibility_timeout_seconds)
unfolding queue_from_settings queue_client
queue_from_settings-account s account dots none_given url backend =
    let filled = append-present "https://" (account ++ ".blob.core.windows.net") refl in
    rw (backend, none_given, url, filled, queue_url-account account dots) refl
