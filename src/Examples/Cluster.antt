-- ===== src/Examples/Cluster.antt =====
-- A cluster with one node and the three deployments.
use azure_ml_optimization_pl.Base.{String, ◌≡◌, refl, [], ◌∷◌, true}
use azure_ml_optimization_pl.Base.Int.{ℤ}
use azure_ml_optimization_pl.Double.{Double, fixed_point}
use azure_ml_optimization_pl.Errors.{Result, ok}
use azure_ml_optimization_pl.Scripts.Json.{
  Json, number, string, array, object, nil, cons, end, field, item, elements, to_list, find_field,
  is_string,
}
use azure_ml_optimization_pl.Scripts.Aks.{
  Query, nodes, deployments, runtime_secrets, Workloads, main, items_of, check_cluster, run_smoke,
  summary, item_in, is_ready, any_ready, node_ready, all_ready, names_of, are_expected, available,
  has_replicas, all_available, node_summaries, deployment_summaries,
}
use azure_ml_optimization_pl.Scripts.Aks.Verified.{IsVerified, main-IsVerified}

abbrev one : (key : String) → Json ℤ → Json ℤ
one key v = object (field key v end)

abbrev ready : Json ℤ
ready = object (field "type" (string "Ready") (field "status" (string "True") end))

abbrev info : Json ℤ
info =
    object (field "kubeletVersion" (string "v1.33.1") (field "architecture" (string "amd64") end))

abbrev node : Json ℤ
node =
    one "status" (object (field "conditions" (array (cons ready nil)) (field "nodeInfo" info end)))

abbrev replicas : Json ℤ
replicas = number (Double.literal fixed_point 1 0)

abbrev deployment : (name : String) → Json ℤ
deployment name = object (
    field "metadata" (one "name" (string name)) (
      field "spec" (one "replicas" replicas)
        (field "status" (one "availableReplicas" replicas) end)))

abbrev answers : Query → Result (Json ℤ)
answers nodes = ok (one "items" (array (cons node nil)))
answers deployments = ok (
    one "items" (
      array (
        cons (deployment "mfbo-api")
          (cons (deployment "mfbo-worker") (cons (deployment "mfbo-mlflow") nil)))))
answers runtime_secrets = ok (one "data" (one "api-key" (string "a2V5")))

abbrev plain : Json ℤ → Result String
plain v = ok "key"

abbrev passes : (api_key : String) → Result (Unit {0})
passes key = ok tt

abbrev workloads : Workloads ℤ
workloads = record {
  checked_at = "2025-01-01T00:00:00+00:00";
  end_to_end_smoke_passed = true;
  node_list = record { version = string "v1.33.1"; architecture = string "amd64" } ∷ [];
  deployment_list =
      record { name = string "mfbo-api"; desired = replicas; available = replicas }
      ∷ record { name = string "mfbo-worker"; desired = replicas; available = replicas }
      ∷ record { name = string "mfbo-mlflow"; desired = replicas; available = replicas }
      ∷ [];
}

main_runs : main answers plain passes "2025-01-01T00:00:00+00:00" ≡ ok workloads
unfolding main items_of check_cluster run_smoke summary item_in is_ready any_ready node_ready
    all_ready names_of are_expected available has_replicas all_available node_summaries
    deployment_summaries item elements to_list find_field is_string
main_runs = refl

main-IsVerified_example : IsVerified answers plain passes
main-IsVerified_example =
    main-IsVerified answers plain passes "2025-01-01T00:00:00+00:00" workloads main_runs
