-- ===== src/Controller/Recon/Frame.antt =====
-- Which calls a reconciliation may make, whatever it is answered.
use bitcoin_controller.Base.{
  ◌≡◌, refl, String, ◌<>◌, Bool, true, false, not, List, [], Option, some, none, arith, All,
}
use bitcoin_controller.Kube.{StatefulSet}
use bitcoin_controller.Apis.{Slice, BitcoinNetwork, BitcoinNetworkNode, elements, deep_equal}
use bitcoin_controller.Client.{Result, ok, err, BitcoinClient, Config, AddedNode}
use bitcoin_controller.Cluster.{Cluster}
use bitcoin_controller.Effects.{pure, ◌>>◌}
use bitcoin_controller.Effects.Makes.{
  Makes, All-append, Makes-bind, Makes-result, Makes-pure, Makes-if, Makes-for_each,
}
use bitcoin_controller.Secrets.{credentials_for_secret}
use bitcoin_controller.Secrets.Origin.{credentials_for_secret-Origin}
use bitcoin_controller.Effects.Loops.{for_each}
use bitcoin_controller.Controller.Status.{update_network_status}
use bitcoin_controller.Controller.Connect.{
  add_missing, remove_stale, connect_node, ready_keys, connect_at, with_credentials, sync_nodes,
}
use bitcoin_controller.Controller.Connect.Rounds.{
  connect_node-refused, connect_node-rounds, added_map, adding, removing,
}
use bitcoin_controller.Controller.Connect.Run.{sync_nodes-run}
use bitcoin_controller.Controller.Recon.{
  sts_postfix, svc_postfix, ensure_service, ensure_stateful_set, adjust_replicas, sync_if_changed,
  refresh_status, after_set, after_service, recon_network, do_recon,
}
use bitcoin_controller.Controller.Recon.Own.{
  IsOwn, OwnResult, ensure_stateful_set-OwnResult, adjust_replicas-IsOwn,
  credentials_for_secret-IsOwn, ensure_service-IsOwn, ensure_stateful_set-IsOwn,
  update_network_status-IsOwn,
}

module _ (K : Cluster) (network : BitcoinNetwork) (namespace name : String) {Json : Type 0}
    (R : BitcoinClient K.World Json) where
  add_missing-IsOwn :
      (c : Config) (added : List String) (node : String)
      → Makes (IsOwn K network namespace name) (add_missing K R c added node)
  unfolding add_missing
  add_missing-IsOwn c added node w = ground arith

  remove_stale-IsOwn :
      (c : Config) (nodes : List String) (node : String)
      → Makes (IsOwn K network namespace name) (remove_stale K R c nodes node)
  unfolding remove_stale
  remove_stale-IsOwn c nodes node w = ground arith

  connect_node-IsOwn :
      (c : Config) (nodes : List String)
      → Makes (IsOwn K network namespace name) (connect_node K R c nodes)
  connect_node-IsOwn c nodes w = by_reply (R.get_added_nodes c w).0 refl
    where
      by_reply :
          (r : Result (List AddedNode))
          → (R.get_added_nodes c w).0 ≡ r
          → All (IsOwn K network namespace name) (connect_node K R c nodes w).calls
      by_reply (err f) e = rw (connect_node-refused K R c nodes w f e) (tt, (tt, tt))
      by_reply (ok ns) e =
          let added = added_map c ns in
          let first = adding K R c added nodes (R.get_added_nodes c w).1 in
          rw (connect_node-rounds K R c nodes w ns e) (
            tt,
            All-append (IsOwn K network namespace name) first.calls
                (removing K R c nodes added first.world).calls
                (Makes-for_each (IsOwn K network namespace name) (add_missing K R c added) _
                  (add_missing-IsOwn c added) _)
                (Makes-for_each (IsOwn K network namespace name) (remove_stale K R c nodes) _
                  (remove_stale-IsOwn c nodes) _),
          )

  sync_nodes-IsOwn :
      (nodes : List BitcoinNetworkNode)
      → Makes
          (IsOwn K network namespace name)
          (sync_nodes K R nodes network.spec.secret network.meta.namespace)
  sync_nodes-IsOwn nodes w =
      let found = credentials_for_secret-Origin K network.spec.secret network.meta.namespace w in
      let first = credentials_for_secret K network.spec.secret network.meta.namespace w in
      let ready = ready_keys nodes [] in
      let body = connect_at K R (with_credentials K R found.0) ready in
      rw (sync_nodes-run K R nodes network.spec.secret network.meta.namespace w found.0 found.1) (
        All-append (IsOwn K network namespace name) first.calls
          (for_each body (K.range_order first.world ready) first.world).calls
          ((credentials_for_secret-IsOwn K network namespace name) w)
          (Makes-for_each (IsOwn K network namespace name) body _ (λ ip. connect_node-IsOwn _ ready)
            first.world))

  sync_if_changed-IsOwn :
      (nodes : Slice BitcoinNetworkNode)
      → Makes (IsOwn K network namespace name) (sync_if_changed K R network nodes)
  sync_if_changed-IsOwn nodes =
      Makes-if (IsOwn K network namespace name) (not (deep_equal network.status.nodes nodes))
        (sync_nodes K R (elements nodes) network.spec.secret network.meta.namespace) (pure tt)
        (sync_nodes-IsOwn (elements nodes)) (Makes-pure (IsOwn K network namespace name) tt)

  refresh_status-IsOwn :
      Makes
        (IsOwn K network namespace name)
        (refresh_status K R network (name <> sts_postfix) (name <> svc_postfix))
  unfolding refresh_status
  refresh_status-IsOwn =
      Makes-bind (IsOwn K network namespace name)
        (update_network_status K network (name <> sts_postfix) (name <> svc_postfix))
        (sync_if_changed K R network) (update_network_status-IsOwn K network namespace name)
        sync_if_changed-IsOwn

  after_set-IsOwn :
      (r : Option (Option StatefulSet))
      → OwnResult K network namespace name r
      → Makes
          (IsOwn K network namespace name)
          (after_set K R network (name <> sts_postfix) (name <> svc_postfix) r)
  after_set-IsOwn none h = Makes-pure (IsOwn K network namespace name) true
  after_set-IsOwn (some sts) h =
      let refresh = refresh_status K R network (name <> sts_postfix) (name <> svc_postfix) in
      Makes-bind (IsOwn K network namespace name) (adjust_replicas K network sts)
        (λ _. refresh >> pure true) (adjust_replicas-IsOwn K network namespace name sts h)
        (λ _.
          Makes-bind (IsOwn K network namespace name) refresh (λ _. pure true) refresh_status-IsOwn
            (λ _. Makes-pure (IsOwn K network namespace name) true))

  after_service-IsOwn :
      (b : Bool)
      → Makes (IsOwn K network namespace name) (after_service K R network namespace name b)
  after_service-IsOwn false = Makes-pure (IsOwn K network namespace name) true
  after_service-IsOwn true =
      Makes-result (IsOwn K network namespace name)
        (ensure_stateful_set K network namespace (name <> sts_postfix) (name <> svc_postfix))
        (after_set K R network (name <> sts_postfix) (name <> svc_postfix))
        (OwnResult K network namespace name) (ensure_stateful_set-IsOwn K network namespace name)
        (ensure_stateful_set-OwnResult K network namespace name) after_set-IsOwn

  -- Every call of a reconciliation is as `IsOwn` says, whatever is answered, also if it ends in a panic.
  pub recon_network-IsOwn :
      Makes (IsOwn K network namespace name) (recon_network K R network namespace name)
  unfolding recon_network
  recon_network-IsOwn =
      Makes-bind (IsOwn K network namespace name)
        (ensure_service K network namespace (name <> svc_postfix))
        (after_service K R network namespace name) (ensure_service-IsOwn K network namespace name)
        after_service-IsOwn

  -- Every call that `doRecon` makes to Kubernetes for a network that is in the cache and is not being
  -- deleted is about this network, whatever the environment answers and also if the run ends in a
  -- panic: it creates no service and no stateful set but those made for the network, updates no
  -- stateful set but one that the cache has or the API server returned for the network, and of that
  -- only the replicas, to the network's number, writes no status but with the network's metadata and
  -- specification, reads no secret but the network's, and records no event but about the network. It
  -- does not touch the queue. Of the calls to daemons nothing is said.
  pub do_recon-IsOwn :
      (key : String) (w : K.World)
      → K.split_key key ≡ ok (namespace, name)
      → (K.get_network namespace name w).0 ≡ ok network
      → network.meta.deletion_timestamp ≡ none
      → All (IsOwn K network namespace name) (do_recon K R key w).calls
  unfolding do_recon
  do_recon-IsOwn key w e f g =
      let w₁ = (K.get_network namespace name w).1 in
      let run : do_recon K R key w ≡ recon_network K R network namespace name w₁ =
        ground (arith, e, f, g) in
      rw run (recon_network-IsOwn w₁)
