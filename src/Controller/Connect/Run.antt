-- ===== src/Controller/Connect/Run.antt =====
-- `syncNodes` as the reading of the credentials and one loop.
use bitcoin_controller.Base.{◌≡◌, String, List, [], some, arith}
use bitcoin_controller.Apis.{BitcoinNetworkNode}
use bitcoin_controller.Client.{BitcoinClient}
use bitcoin_controller.Cluster.{Cluster}
use bitcoin_controller.Secrets.{Credentials, credentials_for_secret}
use bitcoin_controller.Effects.{after}
use bitcoin_controller.Effects.Loops.{for_each}
use bitcoin_controller.Controller.Connect.{
  ready_keys, for_range, connect_at, with_credentials, sync_nodes,
}

module _ (K : Cluster) {Json : Type 0} (R : BitcoinClient K.World Json) where
  pub sync_nodes-run :
      (nodes : List BitcoinNetworkNode) (name namespace : String) (w : K.World) (cred : Credentials)
      → (credentials_for_secret K name namespace w).result ≡ some cred
      → let first = credentials_for_secret K name namespace w in
        let ready = ready_keys nodes [] in
        sync_nodes K R nodes name namespace w
        ≡ after first.calls (
            for_each
              (connect_at K R (with_credentials K R cred) ready)
              (K.range_order first.world ready)
              first.world)
  unfolding sync_nodes for_range
  sync_nodes-run nodes name namespace w cred got = ground arith
