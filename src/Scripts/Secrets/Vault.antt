-- ===== src/Scripts/Secrets/Vault.antt =====
-- The key vault before and after a run of scripts/initialize_azure_secrets.py.
use azure_ml_optimization_pl.Base.{
  String, str_eq, eq_iff, ◌≡◌, refl, ◌∙◌, true, Bool-cases, inl, inr, lookup, insert, lookup-insert,
  lookup-insert_self, none, some, List, [], ◌∷◌, arith, Option-cases,
}
use azure_ml_optimization_pl.Errors.{Result, ok, err}
use azure_ml_optimization_pl.Exec.{pure}
use azure_ml_optimization_pl.Exec.Ensures.{Ensures, Ensures-bind, EndsIn, EndsIn-of, Ensures-weaken}
use azure_ml_optimization_pl.Protocol.Record.{is_some}
use azure_ml_optimization_pl.World.{Answer, returns, fails_before, fails_after, answered}
use azure_ml_optimization_pl.Scripts.Secrets.{
  Vault, Calls, api_key, insights_key, set_under, existing, value_for, set_missing, initialize_each,
  main,
}

-- Every secret of `v` is in `w`, with its value.
pub record Preserves (v w : Vault) : Type 0 where
  pub at : (name value : String) → lookup name v ≡ some value → lookup name w ≡ some value

abbrev pub IsThere : String → Vault → Type 0
IsThere name v = is_some (lookup name v) ≡ true

found_IsSet : (name : String) (w : Vault) (x : String) → lookup name w ≡ some x → IsThere name w
found_IsSet name w x h = rw h refl

-- What setting any secret keeps.
abbrev IsStable : (Vault → Type 0) → Type 0
IsStable R = (a : Answer) (name value : String) (w : Vault) → R w → R (set_under a name value w).1

IsThere-IsStable : (name : String) → IsStable (IsThere name)
IsThere-IsStable name returns n value w h = ground (arith, lookup-insert n name value w)
IsThere-IsStable name (fails_before e) n value w h = h
IsThere-IsStable name (fails_after e) n value w h = ground (arith, lookup-insert n name value w)

insert-Preserves :
    (v w : Vault) (name value : String)
    → lookup name v ≡ none
    → Preserves v w
    → Preserves v (insert name value w)
insert-Preserves v w name value absent h = record {
  at = λ k x found.
      ground (arith, lookup-insert name k value w, h.at k x found, eq_iff name k, absent, found);
}

set_under-Preserves :
    (a : Answer) (v w : Vault) (name value : String)
    → lookup name v ≡ none
    → Preserves v w
    → Preserves v (set_under a name value w).1
set_under-Preserves returns v w name value absent h = insert-Preserves v w name value absent h
set_under-Preserves (fails_before e) v w name value absent h = h
set_under-Preserves (fails_after e) v w name value absent h =
    insert-Preserves v w name value absent h

set_under-IsThere :
    (a : Answer) (w : Vault) (name value : String)
    → (set_under a name value w).0 ≡ ok tt
    → IsThere name (set_under a name value w).1
set_under-IsThere returns w name value h = ground (arith, lookup-insert_self name value w)
set_under-IsThere (fails_before e) w name value h = cc
set_under-IsThere (fails_after e) w name value h = cc

listing : (a : Answer) (w there : Vault) → answered a (ok w) ≡ ok there → there ≡ w
listing returns w there h = cc h
listing (fails_before e) w there h = cc h
listing (fails_after e) w there h = cc h

module _ (calls : Calls) (v : Vault) where
  abbrev Holding : (Vault → Type 0) → Vault → Type 0
  Holding R w = Preserves v w × R w

  set_under-Holding :
      (R : Vault → Type 0) (name value : String)
      → IsStable R
      → lookup name v ≡ none
      → Ensures
          (Preserves v)
          (Holding R)
          (set_under (calls.at_set name) name value)
          (λ _. Holding (λ w. IsThere name w × R w))
  set_under-Holding R name value stable absent = record {
    at = λ w (kept, r).
        let a = calls.at_set name in
        let k = set_under-Preserves a v w name value absent kept in
        EndsIn-of (Preserves v) _ (set_under a name value w).0 (set_under a name value w).1 k
          λ u e. (k, (set_under-IsThere a w name value e, stable a name value w r));
  }

  value_for-Holding :
      (R : Vault → Type 0) (name : String)
      → Ensures (Preserves v) (Holding R) (value_for calls name) (λ _. Holding R)
  unfolding value_for
  value_for-Holding R name = record {
    at = λ w h. elim (Bool-cases (str_eq name api_key)) [
      | inl key ↦ rw (key, value_for) h
      | inr other ↦
          rw (other, value_for)
            (EndsIn-of (Preserves v) (λ _. Holding R)
              (answered calls.at_show (ok calls.connection_string)) w h.0 λ value e. h)
    ];
  }

  set_missing-Holding :
      (R : Vault → Type 0) (name : String)
      → IsStable R
      → Ensures
          (Preserves v)
          (Holding R)
          (set_missing calls name (is_some (lookup name v)))
          (λ _. Holding (λ w. IsThere name w × R w))
  unfolding set_missing pure
  set_missing-Holding R name stable = elim (Option-cases (lookup name v)) [
    | inl absent ↦
        rw (absent, set_missing)
          (Ensures-bind _ _ _ (value_for-Holding R name)
            λ value. set_under-Holding R name value stable absent)
    | inr (x, there) ↦
        rw (there, set_missing)
          (record { at = λ w (kept, r). (kept, (found_IsSet name w x (kept.at name x there), r)) })
  ]

  abbrev AllSet : List String → Vault → Type 0
  AllSet [] w = Unit {0}
  AllSet (name ∷ names) w = IsThere name w × AllSet names w

  pair-IsStable :
      (name : String) (R : Vault → Type 0) → IsStable R → IsStable (λ w. IsThere name w × R w)
  pair-IsStable name R stable a n value w (h, r) =
      (IsThere-IsStable name a n value w h, stable a n value w r)

  initialize_each-Holding :
      (names : List String) (R : Vault → Type 0)
      → IsStable R
      → Ensures
          (Preserves v)
          (Holding R)
          (initialize_each calls names v)
          (λ _. Holding (λ w. AllSet names w × R w))
  unfolding initialize_each pure
  initialize_each-Holding [] R stable = record { at = λ w (kept, r). (kept, (tt, r)) }
  initialize_each-Holding (name ∷ names) R stable =
      Ensures-bind _ _ _ (set_missing-Holding R name stable) λ _.
        Ensures-weaken _ _ _ (λ _ w (kept, (all, (one, r))). (kept, ((one, all), r)))
          (initialize_each-Holding names (λ w. IsThere name w × R w) (pair-IsStable name R stable))

  abbrev BothSet : Vault → Type 0
  BothSet w = IsThere api_key w × IsThere insights_key w

  -- The run behind the listing.
  listed : Ensures (Preserves v) (λ w. w ≡ v) (main calls) (λ _ w. Preserves v w × BothSet w)
  unfolding main existing
  listed =
      Ensures-bind _ _ (λ there w. (there ≡ v) × (w ≡ v))
        (record {
          at = λ w same.
              EndsIn-of (Preserves v) _ (answered calls.at_list (ok w)) w
                (rw same (record { at = λ name value h. h }))
                λ there e. (listing calls.at_list w there e ∙ same, same);
        })
        λ there. record {
          at = λ w (e, f).
              rw (e, f)
                ((Ensures-weaken _ _ _ (λ _ u (kept, ((one, (two, done)), r)). (kept, (one, two)))
                    (initialize_each-Holding (api_key ∷ insights_key ∷ []) (λ u. Unit)
                      (λ a n x u r. tt))).at
                  v (record { at = λ name value h. h }, tt));
        }

  closing :
      (r : Result (Unit {0})) (w : Vault)
      → EndsIn (Preserves v) (λ _ w. Preserves v w × BothSet w) r w
      → Preserves v w × (r ≡ ok tt → BothSet w)
  closing (ok u) w (kept, both) = (kept, λ e. both)
  closing (err e) w kept = (kept, λ e. cc)

-- Whatever call fails: every secret of the vault keeps its value; and a run that ends without an
-- exception leaves the two secrets set.
pub main-Preserves :
    (calls : Calls) (v : Vault)
    → let (r, w) = main calls v in
      Preserves v w × (r ≡ ok tt → IsThere api_key w × IsThere insights_key w)
main-Preserves calls v = closing calls v _ _ ((listed calls v).at v refl)
