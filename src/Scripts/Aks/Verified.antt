-- ===== src/Scripts/Aks/Verified.antt =====
-- The evidence of scripts/verify_aks.py beside the answers of kubectl.
use azure_ml_optimization_pl.Base.{String, ◌≡◌, ◌≢◌, true, List, [], All, arith, ap, sym, ◌∙◌}
use azure_ml_optimization_pl.Double.{Double}
use azure_ml_optimization_pl.Errors.{Result, ok, bind-eq-ok}
use azure_ml_optimization_pl.Scripts.Json.{Json, item, elements}
use azure_ml_optimization_pl.Scripts.Aks.{
  Query, nodes, deployments, runtime_secrets, Workloads, item_in, all_ready, names_of, is_among,
  all_expected, are_expected, all_available, is_filled, items_of, check_cluster, run_smoke, main,
}
use azure_ml_optimization_pl.Scripts.Aks.Readiness.{
  At, IsReadyNode, IsServed, IsKnown, IsDeployed, asserted-ok, item_in-At, all_ready-lem,
}
use azure_ml_optimization_pl.Scripts.Aks.Replicas.{
  all_available-lem, all_expected-lem, is_among-lem,
}

module _ {F : Type 0} ⦃d : Double F⦄ where
  module _ (get : Query → Result (Json F)) (b64decode : Json F → Result String)
      (smoke_test : (api_key : String) → Result (Unit {0})) where
    -- The list of items that kubectl answered with.
    pub record IsAnswer (q : Query) (xs : List (Json F)) : Type 0 where
      pub answer : Json F
      pub items : Json F
      pub answered : get q ≡ ok answer
      pub found : item "items" answer ≡ ok items
      pub listed : elements items ≡ ok xs

    -- The smoke test passed with the key of the secret.
    pub record HasPassed : Type 0 where
      pub secret : Json F
      pub encoded : Json F
      pub key : String
      pub answered : get runtime_secrets ≡ ok secret
      pub found : At "data" "api-key" secret encoded
      pub decoded : b64decode encoded ≡ ok key
      pub passed : smoke_test key ≡ ok tt

    pub record IsVerified : Type 0 where
      pub ns : List (Json F)
      pub ds : List (Json F)
      pub nodes_read : IsAnswer nodes ns
      pub deployments_read : IsAnswer deployments ds
      pub some_node : ns ≢ []
      pub nodes_ready : All IsReadyNode ns
      pub known : All IsKnown ds
      pub api_there : IsDeployed "mfbo-api" ds
      pub worker_there : IsDeployed "mfbo-worker" ds
      pub mlflow_there : IsDeployed "mfbo-mlflow" ds
      pub served : All IsServed ds
      pub smoke : HasPassed

    items_of-IsAnswer :
        (q : Query) (xs : List (Json F))
        → items_of get b64decode smoke_test q ≡ ok xs
        → IsAnswer q xs
    unfolding items_of
    items_of-IsAnswer q xs h =
        let (answer, e, f) = bind-eq-ok (get q) _ h in
        let (items, e', f') = bind-eq-ok (item "items" answer) _ f in
        record { answer = answer; items = items; answered = e; found = e'; listed = f' }

    run_smoke-HasPassed : run_smoke get b64decode smoke_test ≡ ok tt → HasPassed
    unfolding run_smoke
    run_smoke-HasPassed h =
        let (secret, e, f) = bind-eq-ok (get runtime_secrets) _ h in
        let (encoded, e', f') = bind-eq-ok (item_in "data" "api-key" secret) _ f in
        let (key, e'', passed) = bind-eq-ok (b64decode encoded) _ f' in
        record {
          secret = secret;
          encoded = encoded;
          key = key;
          answered = e;
          found = item_in-At _ _ secret encoded e';
          decoded = e'';
          passed = passed;
        }

    is_filled-lem : (xs : List (Json F)) → is_filled xs ≡ true → xs ≢ []
    is_filled-lem xs h e =
        let b : is_filled {F = F} [] ≡ true = ap (is_filled {F = F}) (sym e) ∙ h in cc b

    -- The assertions, in their order.
    checked :
        (ns ds : List (Json F))
        → check_cluster get b64decode smoke_test ns ds ≡ ok tt
        → (names : List (Json F)) × (is_filled ns ≡ true)
          × (all_ready ns ≡ ok true)
          × (names_of ds ≡ ok names)
          × (are_expected names ≡ true)
          × (all_available ds ≡ ok true)
    unfolding check_cluster
    checked ns ds h =
        let (filled, h₁) = asserted-ok (is_filled ns) _ tt h in
        let (ready, e, h₂) = bind-eq-ok (all_ready ns) _ h₁ in
        let (is_ready_all, h₃) = asserted-ok ready _ tt h₂ in
        let (names, e', h₄) = bind-eq-ok (names_of ds) _ h₃ in
        let (expected, h₅) = asserted-ok (are_expected names) _ tt h₄ in
        let (enough, e'', h₆) = bind-eq-ok (all_available ds) _ h₅ in
        let (is_enough, h₇) = asserted-ok enough _ tt h₆ in
        (names, filled, e ∙ ap ok is_ready_all, e', expected, e'' ∙ ap ok is_enough)

    expected_parts :
        (names : List (Json F))
        → are_expected names ≡ true
        → (all_expected names ≡ true)
          × (is_among "mfbo-api" names ≡ true)
          × (is_among "mfbo-worker" names ≡ true)
          × (is_among "mfbo-mlflow" names ≡ true)
    unfolding are_expected
    expected_parts names h = ground (arith, h)

    -- If `main` ends with evidence: kubectl answered with a list of nodes that is not empty, of
    -- which each has a condition of the type `Ready` with the status `True`; and with a list of
    -- deployments, of which each is the API, the worker or the tracking server and has at least as
    -- many replicas as it wants, and in which all three are there; and the smoke test passed with
    -- the key that the secret has.
    pub main-IsVerified :
        (now : String) (w : Workloads F) → main get b64decode smoke_test now ≡ ok w → IsVerified
    unfolding main
    main-IsVerified now w h =
        let (ns, first, h₁) = bind-eq-ok (items_of get b64decode smoke_test nodes) _ h in
        let (ds, second, h₂) = bind-eq-ok (items_of get b64decode smoke_test deployments) _ h₁ in
        let (u, third, h₃) = bind-eq-ok (check_cluster get b64decode smoke_test ns ds) _ h₂ in
        let (v, passed, last) = bind-eq-ok (run_smoke get b64decode smoke_test) _ h₃ in
        let (names, filled, ready, named, expected, enough) = checked ns ds third in
        let (each, api, worker, mlflow) = expected_parts names expected in
        record {
          ns = ns;
          ds = ds;
          nodes_read = items_of-IsAnswer nodes ns first;
          deployments_read = items_of-IsAnswer deployments ds second;
          some_node = is_filled-lem ns filled;
          nodes_ready = all_ready-lem ns ready;
          known = all_expected-lem ds names named each;
          api_there = is_among-lem _ ds names named api;
          worker_there = is_among-lem _ ds names named worker;
          mlflow_there = is_among-lem _ ds names named mlflow;
          served = all_available-lem ds enough;
          smoke = run_smoke-HasPassed passed;
        }
