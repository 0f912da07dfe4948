-- ===== src/Controller/Recon/Mesh.antt =====
-- What `doRecon` does to the daemons of a network whose node list has changed.
use bitcoin_controller.Base.{
  ◌≡◌, ◌≢◌, refl, ap, ◌∙◌, String, ◌<>◌, ℤ, pos_part, Bool, true, List, some, arith, eq_iff,
}
use bitcoin_controller.Kube.{Pod, StatefulSet}
use bitcoin_controller.Apis.{BitcoinNetwork, BitcoinNetworkNode, elements}
use bitcoin_controller.Client.{Config, Result, ok, BitcoinClient}
use bitcoin_controller.Client.Peers.{TracksPeers}
use bitcoin_controller.Cluster.{Cluster, RangesOnce}
use bitcoin_controller.Secrets.{Credentials, credentials_for_secret}
use bitcoin_controller.Secrets.Origin.{credentials_for_secret-Origin}
use bitcoin_controller.Controller.Status.{update_network_status}
use bitcoin_controller.Controller.Status.Stable.{
  StableCache, Benign, expected_nodes, update_network_status-present,
}
use bitcoin_controller.Controller.Connect.{with_credentials, sync_nodes}
use bitcoin_controller.Controller.Connect.Rounds.{ready_at}
use bitcoin_controller.Controller.Connect.Mesh.{sync_nodes-mesh}
use bitcoin_controller.Controller.Recon.{
  sts_postfix, svc_postfix, adjust_replicas, refresh_status, do_recon,
}
use bitcoin_controller.Controller.Recon.Steady.{
  IsDeployed, adjust_replicas-calls, refresh_status-run, sync_if_changed-changed, do_recon-run,
}

module _ (K : Cluster) {Json : Type 0} (R : BitcoinClient K.World Json) {Accepts : Config → Type 0}
    {has : K.World → String → String → Bool} (T : TracksPeers R Accepts has) (L : RangesOnce K)
    (network : BitcoinNetwork) where
  -- Each of these addresses takes the credentials of the network's secret, whenever they are read.
  abbrev pub AcceptsSecret : List BitcoinNetworkNode → Type 0
  AcceptsSecret nodes =
      (w : K.World) (cred : Credentials) (ip : String)
      → (credentials_for_secret K network.spec.secret network.meta.namespace w).result ≡ some cred
      → ready_at nodes ip ≡ true
      → Accepts (record (with_credentials K R cred) { server_ip = ip })

  sync_nodes-pair :
      (nodes : List BitcoinNetworkNode) (w : K.World) (server peer : String)
      → AcceptsSecret nodes
      → ready_at nodes server ≡ true
      → peer ≢ server
      → let run = sync_nodes K R nodes network.spec.secret network.meta.namespace w in
        (run.result ≡ some tt) × (has run.world server peer ≡ ready_at nodes peer)
  sync_nodes-pair nodes w server peer a r ne =
      let found = credentials_for_secret-Origin K network.spec.secret network.meta.namespace w in
      let mesh =
        sync_nodes-mesh K R T L nodes network.spec.secret network.meta.namespace w found.0 found.1
          (λ ip h. a w found.0 ip found.1 h) in
      (mesh.0, ground (arith, mesh.1 server peer, eq_iff peer server))

  -- If the daemons do for the calls of the client what is documented of the added nodes, a range over
  -- a map goes once through each key, and every ready node takes the credentials of the network's
  -- secret: when the pods of a deployed network, each of them in an unchanging cache or not found,
  -- give another node list than its status, `doRecon` returns true and leaves the ready nodes
  -- connected to each other: of any other address, a ready node has it as an added node exactly if a
  -- node with that address is ready.
  pub do_recon-mesh :
      (key namespace name : String) (set : StatefulSet) (n : ℤ) (answer : String → Result Pod)
      (S : StableCache K network.meta.namespace answer) (w : K.World) (server peer : String)
      → K.split_key key ≡ ok (namespace, name)
      → IsDeployed K network namespace name set n
      → Benign K network.meta.namespace
          (name <> sts_postfix)
          (name <> svc_postfix)
          answer
          S
          (pos_part network.spec.nodes)
      → let nodes = expected_nodes K network (name <> sts_postfix) (name <> svc_postfix) answer S in
        network.status.nodes ≢ nodes
        → AcceptsSecret (elements nodes)
        → ready_at (elements nodes) server ≡ true
        → peer ≢ server
        → ((do_recon K R key w).result ≡ some true)
          × (has (do_recon K R key w).world server peer ≡ ready_at (elements nodes) peer)
  do_recon-mesh key namespace name set n answer S w server peer e d b changed a r ne =
      let sts = name <> sts_postfix in
      let svc = name <> svc_postfix in
      let nodes = expected_nodes K network sts svc answer S in
      let w₁ = (K.get_network namespace name w).1 in
      let w₂ = (K.get_service namespace svc w₁).1 in
      let w₃ = (K.get_stateful_set namespace sts w₂).1 in
      let w₄ = (adjust_replicas K network (some set) w₃).world in
      let first = update_network_status K network sts svc w₄ in
      let status = (update_network_status-present K network sts svc answer S w₄ b).0 in
      let mesh = sync_nodes-pair (elements nodes) first.world server peer a r ne in
      let adjusted = (adjust_replicas-calls K network set n w₃ d.has_replicas).0 in
      let refreshed = refresh_status-run K R network sts svc nodes w₄ status in
      let synced = sync_if_changed-changed K R network nodes first.world changed in
      let ends : (refresh_status K R network sts svc w₄).result ≡ some tt =
        rw (refreshed, synced) mesh.0 in
      let run = do_recon-run K R network key namespace name set n w e d in
      let same_world : (do_recon K R key w).world ≡ (refresh_status K R network sts svc w₄).world =
        rw run (ground (arith, adjusted, ends)) in
      (
        rw run (ground (arith, adjusted, ends)),
        ap (λ u. has u server peer) (same_world ∙ rw (refreshed, synced) refl) ∙ mesh.1,
      )
