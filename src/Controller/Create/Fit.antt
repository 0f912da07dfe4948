-- ===== src/Controller/Create/Fit.antt =====
-- The service and the stateful set of a network, beside each other.
use bitcoin_controller.Base.{◌≡◌, ℕ, String, ◌<>◌, ◌==◌, [], ◌∷◌, map, some, arith, if◌then◌else◌}
use bitcoin_controller.Kube.{Pod, Service, StatefulSet}
use bitcoin_controller.Apis.{BitcoinNetwork}
use bitcoin_controller.Cluster.{Cluster}
use bitcoin_controller.Controller.Create.{
  new_stateful_set, new_headless_service, secret_source, with_env_from, set_env_from,
}
use bitcoin_controller.Controller.Status.{node_of_pod}

-- The service is that of the set: it selects what the set makes, and its name is the domain of the pods.
pub record Fits (service : Service) (set : StatefulSet) : Type 0 where
  pub same_namespace : service.meta.namespace ≡ set.meta.namespace
  pub selects : service.selector ≡ set.spec.template.meta.labels
  pub counts : set.spec.match_labels ≡ set.spec.template.meta.labels
  pub governs : set.spec.service_name ≡ service.meta.name
  pub headless : service.cluster_ip ≡ "None"
  pub same_owners : service.meta.owner_references ≡ set.meta.owner_references

module _ (K : Cluster) (network : BitcoinNetwork) (sts svc : String) where
  -- The service that is sent for a network fits the stateful set; the set has the network's number of
  -- replicas, and its one container has the network's secret as the source of its environment,
  -- or none if the network names no secret; the DNS name in the status of a pod is the pod's name in
  -- the domain of the service.
  pub new_stateful_set-Fits :
      (i : ℕ) (pod : Pod)
      → let service = new_headless_service K network svc in
        let set = new_stateful_set K network sts svc in
        Fits service set
        × (set.spec.replicas ≡ some network.spec.nodes)
        × (map (λ c. c.env_from) set.spec.template.containers
            ≡ (if network.spec.secret == "" then [] else secret_source network.spec.secret ∷ [])
              ∷ [])
        × ((node_of_pod i svc pod).dns_name ≡ pod.meta.name <> "." <> service.meta.name)
  unfolding new_stateful_set new_headless_service node_of_pod with_env_from set_env_from
  new_stateful_set-Fits i pod = ground arith
