-- ===== src/Program/Wired.antt =====
-- The controller with the client that it is made with, from a key to the daemons on the level of HTTP.
use bitcoin_controller.Base.{◌≡◌, ◌≢◌, refl, String, ◌<>◌, ℤ, pos_part, Bool, true, some, none}
use bitcoin_controller.Kube.{Pod, StatefulSet}
use bitcoin_controller.Apis.{BitcoinNetwork, elements}
use bitcoin_controller.Client.{Config, Result, ok, BitcoinClient}
use bitcoin_controller.Client.Peers.{TracksPeers}
use bitcoin_controller.Client.Impl.{Http, new_client_for_config}
use bitcoin_controller.Client.Impl.Daemon.{Wire, Bitcoind, new_client-TracksPeers}
use bitcoin_controller.Cluster.{Cluster, RangesOnce}
use bitcoin_controller.Controller.Status.Stable.{StableCache, Benign, expected_nodes}
use bitcoin_controller.Controller.Connect.Rounds.{ready_at}
use bitcoin_controller.Controller.Recon.{sts_postfix, svc_postfix, do_recon}
use bitcoin_controller.Controller.Recon.Steady.{IsDeployed}
use bitcoin_controller.Controller.Recon.Mesh.{AcceptsSecret, do_recon-mesh}
use bitcoin_controller.Controller.Setup.{
  Controller, InformerKind, default_config, registrations, new_controller,
}

module _ {W Json : Type 0} (H : Http W Json) where
  -- The client of the controller, and what it knows of the daemons.
  abbrev pub rpc_client : BitcoinClient W Json
  rpc_client = new_client_for_config H default_config

  pub rpc_client-TracksPeers :
      (V : Wire H) {Accepts : Config → Type 0} {has : W → String → String → Bool}
      → Bitcoind H V Accepts has
      → TracksPeers rpc_client Accepts has
  unfolding new_client_for_config
  rpc_client-TracksPeers V B = new_client-TracksPeers H V default_config B

module _ (K : Cluster) {Json : Type 0} (H : Http K.World Json) (V : Wire H)
    {Accepts : Config → Type 0} {has : K.World → String → String → Bool}
    (B : Bitcoind H V Accepts has) (L : RangesOnce K) (network : BitcoinNetwork) where
  -- If the types can be added to the scheme, `NewController` returns a controller that does the
  -- following. If requests can be encoded and their addresses parsed, and the daemons do what
  -- bitcoind documents of `addnode` and `getaddednodeinfo` on the level of HTTP: when the pods of a
  -- deployed network give another node list than its status, and the ready nodes take the
  -- credentials of the network's secret, `doRecon` returns true and leaves each ready node with any
  -- other address as an added node exactly if a node with that address is ready.
  pub do_recon-Bitcoind :
      (has_synced : InformerKind → K.World → Bool) (key namespace name : String) (set : StatefulSet)
      (n : ℤ) (answer : String → Result Pod) (S : StableCache K network.meta.namespace answer)
      (w : K.World) (server peer : String)
      → K.split_key key ≡ ok (namespace, name)
      → IsDeployed K network namespace name set n
      → Benign K network.meta.namespace
          (name <> sts_postfix)
          (name <> svc_postfix)
          answer
          S
          (pos_part network.spec.nodes)
      → let nodes = expected_nodes K network (name <> sts_postfix) (name <> svc_postfix) answer S in
        network.status.nodes ≢ nodes
        → AcceptsSecret K (rpc_client H) (rpc_client-TracksPeers H V B) L network (elements nodes)
        → ready_at (elements nodes) server ≡ true
        → peer ≢ server
        → (c : Controller K.World Json) × (new_controller K H none has_synced
            ≡ some (c, registrations K))
          × ((do_recon K c.rpc_client key w).result ≡ some true)
          × (has (do_recon K c.rpc_client key w).world server peer ≡ ready_at (elements nodes) peer)
  unfolding new_controller
  do_recon-Bitcoind has_synced key namespace name set n answer S w server peer e d b changed a r
        ne =
      let mesh =
        do_recon-mesh K (rpc_client H) (rpc_client-TracksPeers H V B) L network key namespace name
          set n answer S w server peer e d b changed a r ne in
      (_, refl, mesh.0, mesh.1)
