-- ===== src/Controller/Recon/Again.antt =====
-- Two runs of `doRecon` for a network, with the status that the first one stores in the cache of the
-- second one.
use bitcoin_controller.Base.{
  ◌≡◌, refl, ◌∙◌, ap₂, String, ◌<>◌, ℤ, pos_part, true, List, Bool-cases, inl, inr, if◌then◌else◌,
  [], ◌∷◌, ◌++◌, append-nil, Option, some, none, arith,
}
use bitcoin_controller.Kube.{Pod, StatefulSet}
use bitcoin_controller.Apis.{BitcoinNetwork, elements, deep_equal}
use bitcoin_controller.Client.{Result, ok, Request, BitcoinClient}
use bitcoin_controller.Cluster.{Cluster}
use bitcoin_controller.Effects.{Call, update_status, pure, ◌>>◌, unlogged, unlogged-append}
use bitcoin_controller.Controller.Connect.{sync_nodes}
use bitcoin_controller.Controller.Status.{update_network_status}
use bitcoin_controller.Controller.Status.Stable.{
  StableCache, Benign, expected_nodes, update_network_status-present,
}
use bitcoin_controller.Controller.Recon.{
  sts_postfix, svc_postfix, adjust_replicas, sync_if_changed, refresh_status, do_recon,
}
use bitcoin_controller.Controller.Recon.Steady.{
  IsDeployed, adjustment, adjust_replicas-calls, refresh_status-run, do_recon-run,
  do_recon-deployed,
}

module _ (K : Cluster) (network : BitcoinNetwork) (name : String) (answer : String → Result Pod)
    (S : StableCache K network.meta.namespace answer) where
  -- The network with the status that its pods give.
  abbrev pub stored : BitcoinNetwork
  stored = record network {
    status = record {
      nodes = expected_nodes K network (name <> sts_postfix) (name <> svc_postfix) answer S;
    };
  }

  -- The cluster when other networks and stateful sets are in the caches.
  abbrev pub later :
      (String → String → Request K.World BitcoinNetwork)
      → (String → String → Request K.World StatefulSet)
      → Cluster
  later networks sets = record K { get_network = networks; get_stateful_set = sets }

  module _ {Json : Type 0} (R : BitcoinClient K.World Json)
      (b : Benign K network.meta.namespace
        (name <> sts_postfix)
        (name <> svc_postfix)
        answer
        S
        (pos_part network.spec.nodes)) where
    refresh_status-stores :
        (w : K.World)
        → let first =
            update_network_status K network (name <> sts_postfix) (name <> svc_postfix) w in
          unlogged (refresh_status K R network (name <> sts_postfix) (name <> svc_postfix) w).calls
          ≡ update_status network.meta.namespace stored
            ∷ unlogged (sync_if_changed K R network stored.status.nodes first.world).calls
    refresh_status-stores w =
        let first = update_network_status K network (name <> sts_postfix) (name <> svc_postfix) w in
        let status =
          update_network_status-present K network (name <> sts_postfix) (name <> svc_postfix) answer
            S w b in
        rw
          (
            refresh_status-run K R network (name <> sts_postfix) (name <> svc_postfix) _ w status.0,
            unlogged-append first.calls
                (sync_if_changed K R network stored.status.nodes first.world).calls,
            status.1,
          )
          refl

    do_recon-stores :
        (key namespace : String) (set : StatefulSet) (n : ℤ) (w : K.World)
        → K.split_key key ≡ ok (namespace, name)
        → IsDeployed K network namespace name set n
        → (u : K.World) × (unlogged (do_recon K R key w).calls
            ≡ adjustment network set n
              ++ (update_status network.meta.namespace stored
                  ∷ unlogged (sync_if_changed K R network stored.status.nodes u).calls))
    do_recon-stores key namespace set n w e d =
        let sts = name <> sts_postfix in
        let svc = name <> svc_postfix in
        let w₁ = (K.get_network namespace name w).1 in
        let w₂ = (K.get_service namespace svc w₁).1 in
        let w₃ = (K.get_stateful_set namespace sts w₂).1 in
        let w₄ = (adjust_replicas K network (some set) w₃).world in
        let adjusted = adjust_replicas-calls K network set n w₃ d.has_replicas in
        (
          (update_network_status K network sts svc w₄).world,
          rw (do_recon-run K R network key namespace name set n w e d) (
              by_end w₃ adjusted.0 (refresh_status K R network sts svc w₄).result refl
              ∙ unlogged-append (adjust_replicas K network (some set) w₃).calls
                  (refresh_status K R network sts svc w₄).calls
              ∙ ap₂ (λ xs ys. xs ++ ys) adjusted.1 (refresh_status-stores w₄)),
        )
      where
        by_end :
            (w₃ : K.World)
            → (adjust_replicas K network (some set) w₃).result ≡ some tt
            → let w₄ = (adjust_replicas K network (some set) w₃).world in
              (r : Option (Unit {0}))
              → (refresh_status K R network (name <> sts_postfix) (name <> svc_postfix) w₄).result
                ≡ r
              → unlogged
                  (((adjust_replicas K network (some set))
                      >> (refresh_status K R network (name <> sts_postfix) (name <> svc_postfix)
                          >> pure true))
                    w₃).calls
                ≡ unlogged (
                    (adjust_replicas K network (some set) w₃).calls
                    ++ (refresh_status K R network
                        (name <> sts_postfix)
                        (name <> svc_postfix)
                        w₄).calls)
        by_end w₃ f (some _) g =
            let w₄ = (adjust_replicas K network (some set) w₃).world in
            ground (
              arith,
              f,
              g,
              append-nil
                  (refresh_status K R network (name <> sts_postfix) (name <> svc_postfix) w₄).calls,
            )
        by_end w₃ f none g = ground (arith, f, g)

    -- The calls that connect the nodes, if their list is another one than in the status.
    abbrev pub connecting : K.World → List Call
    connecting u =
        if deep_equal network.status.nodes stored.status.nodes
        then []
        else unlogged
            (sync_nodes K R (elements stored.status.nodes) network.spec.secret
              network.meta.namespace u).calls

    sync_if_changed-connecting :
        (u : K.World)
        → unlogged (sync_if_changed K R network stored.status.nodes u).calls ≡ connecting u
    sync_if_changed-connecting u =
        elim (Bool-cases (deep_equal network.status.nodes stored.status.nodes)) [
          | inl e ↦ rw e refl
          | inr e ↦ rw e refl
        ]

    -- The first run on a deployed network whose pods are all found or missing sends the number of
    -- replicas if it differs, stores the node list that the pods give, and then makes, if the list
    -- has changed, the calls of `syncNodes` for that list, whatever the daemons answer, and no call
    -- to a daemon otherwise; and none but these to anyone but the log. If the caches then have the
    -- network with that list and the pods are still the same, the second run returns true, sends the
    -- number of replicas if it differs, stores the status once more, and speaks to no daemon, in
    -- whatever world the daemons were left in.
    pub do_recon-again :
        (networks : String → String → Request K.World BitcoinNetwork)
        (sets : String → String → Request K.World StatefulSet) (key namespace : String)
        (set set' : StatefulSet) (n n' : ℤ) (w w' : K.World)
        → K.split_key key ≡ ok (namespace, name)
        → IsDeployed K network namespace name set n
        → IsDeployed (later networks sets) stored namespace name set' n'
        → let again = do_recon (later networks sets) R key w' in
          ((u : K.World) × (unlogged (do_recon K R key w).calls
              ≡ adjustment network set n
                ++ (update_status network.meta.namespace stored ∷ connecting u)))
          × (again.result ≡ some true)
          × (unlogged again.calls
              ≡ adjustment stored set' n' ++ update_status network.meta.namespace stored ∷ [])
    do_recon-again networks sets key namespace set set' n n' w w' e d d' =
        let same_pods : StableCache (later networks sets) network.meta.namespace answer = record {
          get = S.get;
          has_lister = S.has_lister;
          stable = S.stable;
        } in
        let first = do_recon-stores key namespace set n w e d in
        let second =
          do_recon-deployed (later networks sets) R stored key namespace name set' n' answer
            same_pods w' e d' b refl in
        ((first.0, first.1 ∙ rw (sync_if_changed-connecting first.0) refl), second.0, second.1)
