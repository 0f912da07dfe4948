-- ===== src/Controller/Recon/Created.antt =====
-- `doRecon` on a new network, and the objects that it makes for one.
use bitcoin_controller.Base.{
  ◌≡◌, String, ◌<>◌, ℤ, pos_part, true, List, [], ◌∷◌, ◌++◌, some, none, append-nil, arith,
}
use bitcoin_controller.Kube.{Pod, Service, StatefulSet, normal}
use bitcoin_controller.Apis.{BitcoinNetwork}
use bitcoin_controller.Client.{Error, Result, ok, err, BitcoinClient}
use bitcoin_controller.Cluster.{Cluster}
use bitcoin_controller.Effects.{
  Call, create_service, create_stateful_set, update_status, record_event, unlogged, unlogged-append,
  after, pure, ◌>>◌,
}
use bitcoin_controller.Controller.Create.{
  new_stateful_set, new_headless_service, create_headless_service, create_stateful_set_for,
}
use bitcoin_controller.Controller.Status.Stable.{StableCache, Benign, expected_nodes}
use bitcoin_controller.Controller.Recon.{
  sts_postfix, svc_postfix, ensure_service, ensure_stateful_set, adjust_replicas, refresh_status,
  do_recon,
}
use bitcoin_controller.Controller.Recon.Steady.{
  adjustment, adjust_replicas-calls, refresh_status-unchanged,
}

module _ (K : Cluster) (network : BitcoinNetwork) (name : String) where
  -- The service and the stateful set that are sent for a network.
  abbrev pub sent_service : Service
  sent_service = new_headless_service K network (name <> svc_postfix)

  abbrev pub sent_set : StatefulSet
  sent_set = new_stateful_set K network (name <> sts_postfix) (name <> svc_postfix)

  -- The calls that create both, with the events about it.
  abbrev pub creation : List Call
  creation =
      create_service network.meta.namespace sent_service
      ∷ record_event network normal "Info"
          ("Created headless service for bitcoin network  " <> network.meta.name <> "\n")
      ∷ create_stateful_set network.meta.namespace sent_set
      ∷ record_event network normal "Info"
          ("Created stateful set for bitcoin network  " <> network.meta.name <> "\n")
      ∷ []

  -- The caches have the network, which is not being deleted, and neither its service nor its stateful
  -- set; the API server takes both, and returns the second one with a number of replicas.
  pub record IsNew (namespace : String) (created : StatefulSet) (n : ℤ) : Type 0 where
    pub cached : (w : K.World) → (K.get_network namespace name w).0 ≡ ok network
    pub alive : network.meta.deletion_timestamp ≡ none
    pub missing_service : Error
    pub missing_set : Error
    pub service_not_found : K.is_not_found missing_service ≡ true
    pub set_not_found : K.is_not_found missing_set ≡ true
    pub no_service :
        (w : K.World) → (K.get_service namespace (name <> svc_postfix) w).0 ≡ err missing_service
    pub no_set :
        (w : K.World) → (K.get_stateful_set namespace (name <> sts_postfix) w).0 ≡ err missing_set
    pub stored_service : Service
    pub takes_service :
        (w : K.World)
        → (K.create_service network.meta.namespace sent_service w).0 ≡ ok stored_service
    pub takes_set :
        (w : K.World) → (K.create_stateful_set network.meta.namespace sent_set w).0 ≡ ok created
    pub has_replicas : created.spec.replicas ≡ some n

  module _ (namespace : String) (created : StatefulSet) (n : ℤ)
      (new : IsNew namespace created n) where
    ensure_service-created :
        (w : K.World)
        → ((ensure_service K network namespace (name <> svc_postfix) w).result ≡ some true)
          × ((ensure_service K network namespace (name <> svc_postfix) w).calls
              ≡ create_service network.meta.namespace sent_service
                ∷ record_event network normal "Info"
                    ("Created headless service for bitcoin network  " <> network.meta.name <> "\n")
                ∷ [])
    unfolding ensure_service create_headless_service
    ensure_service-created w = ground (
      arith,
      new.no_service w,
      new.service_not_found,
      new.takes_service (K.get_service namespace (name <> svc_postfix) w).1,
    )

    ensure_stateful_set-created :
        (w : K.World)
        → ((ensure_stateful_set K network namespace
              (name <> sts_postfix)
              (name <> svc_postfix)
              w).result
            ≡ some (some (some created)))
          × ((ensure_stateful_set K network namespace
                (name <> sts_postfix)
                (name <> svc_postfix)
                w).calls
              ≡ create_stateful_set network.meta.namespace sent_set
                ∷ record_event network normal "Info"
                    ("Created stateful set for bitcoin network  " <> network.meta.name <> "\n")
                ∷ [])
    unfolding ensure_stateful_set create_stateful_set_for
    ensure_stateful_set-created w = ground (
      arith,
      new.no_set w,
      new.set_not_found,
      new.takes_set (K.get_stateful_set namespace (name <> sts_postfix) w).1,
    )

    module _ {Json : Type 0} (R : BitcoinClient K.World Json) where
      -- `doRecon` on a new network.
      do_recon-created_run :
          (key : String) (w : K.World)
          → K.split_key key ≡ ok (namespace, name)
          → let w₁ =
              (ensure_service K network namespace
                (name <> svc_postfix)
                (K.get_network namespace name w).1).world in
            let w₂ =
              (ensure_stateful_set K network namespace
                (name <> sts_postfix)
                (name <> svc_postfix)
                w₁).world in
            do_recon K R key w
            ≡ after creation (
                ((adjust_replicas K network (some created))
                    >> (refresh_status K R network (name <> sts_postfix) (name <> svc_postfix)
                        >> pure true))
                  w₂)
      unfolding do_recon
      do_recon-created_run key w e =
          let w₁ = (K.get_network namespace name w).1 in
          let first = ensure_service-created w₁ in
          let second =
            ensure_stateful_set-created
              (ensure_service K network namespace (name <> svc_postfix) w₁).world in
          ground (arith, e, new.cached w, new.alive, first.0, first.1, second.0, second.1)

      -- `doRecon` on a new network whose status is right for the pods that there are, each of which is
      -- in an unchanging cache or not found, if the service and the stateful set are not found and the
      -- API server takes both, and returns the set with a number of replicas: it returns true. It creates the service, then the stateful set, each with an event; then it sends the number
      -- of replicas if the API server returned another one, and stores the status. It makes no
      -- other call but to the log, and speaks to no daemon.
      pub do_recon-created :
          (key : String) (answer : String → Result Pod)
          (S : StableCache K network.meta.namespace answer) (w : K.World)
          → K.split_key key ≡ ok (namespace, name)
          → Benign K network.meta.namespace
              (name <> sts_postfix)
              (name <> svc_postfix)
              answer
              S
              (pos_part network.spec.nodes)
          → network.status.nodes
            ≡ expected_nodes K network (name <> sts_postfix) (name <> svc_postfix) answer S
          → ((do_recon K R key w).result ≡ some true)
            × (unlogged (do_recon K R key w).calls
                ≡ creation
                  ++ (adjustment network created n
                      ++ update_status network.meta.namespace network ∷ []))
      do_recon-created key answer S w e b same =
          let sts = name <> sts_postfix in
          let svc = name <> svc_postfix in
          let w₁ =
            (ensure_service K network namespace svc (K.get_network namespace name w).1).world in
          let w₂ = (ensure_stateful_set K network namespace sts svc w₁).world in
          let w₃ = (adjust_replicas K network (some created) w₂).world in
          let adjusted = adjust_replicas-calls K network created n w₂ new.has_replicas in
          let status = refresh_status-unchanged K R network sts svc answer S b same w₃ in
          rw (do_recon-created_run key w e) (
            ground (
              arith,
              adjusted.0,
              adjusted.1,
              status.0,
              status.1,
              append-nil (refresh_status K R network sts svc w₃).calls,
              unlogged-append (adjust_replicas K network (some created) w₂).calls
                  (refresh_status K R network sts svc w₃).calls,
            ))
