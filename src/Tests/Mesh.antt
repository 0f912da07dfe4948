-- ===== src/Tests/Mesh.antt =====
-- `connectNode` and `syncNodes` at work.
use bitcoin_controller.Base.{
  ◌≡◌, refl, pos, String, true, List, [], ◌∷◌, ◌++◌, map, filter, contains, not, NodupKeys, some,
  none, ◌==◌, if◌then◌else◌,
}
use mathlib.Core.List.{Perm}
use bitcoin_controller.Client.{Config, ok}
use bitcoin_controller.Effects.{add_node, get_secret, remove_node, get_added_nodes, unlogged}
use bitcoin_controller.Secrets.{Credentials, credentials_for_secret}
use bitcoin_controller.Secrets.Origin.{Origin, credentials_for_secret-Origin}
use bitcoin_controller.Controller.Connect.{connect_node, sync_nodes, with_credentials}
use bitcoin_controller.Controller.Connect.Rounds.{ready_at}
use bitcoin_controller.Controller.Connect.Calls.{listed, connect_node-calls}
use bitcoin_controller.Controller.Connect.Mesh.{connect_node-has, sync_nodes-mesh}
use bitcoin_controller.Tests.Lab.{
  World, has, peers_of, client, client-TracksPeers, cluster, cluster-RangesOnce, both_nodes, secret,
}

abbrev alice : Config
alice = record {
  server_ip = "10.0.0.1";
  server_port = pos 18332;
  rpc_user = "alice";
  rpc_password = "rabbit";
}

-- The first daemon knows a node that is gone.
abbrev stale : World
stale = ("10.0.0.1", "10.0.0.9") ∷ []

connect_node-calls_example :
    (xs ys : List String) × Perm xs ("10.0.0.1" ∷ "10.0.0.3" ∷ [])
    × NodupKeys ys
    × ((x : String) → contains ys x ≡ listed cluster client alice (peers_of stale "10.0.0.1") x)
    × (unlogged (connect_node cluster client alice ("10.0.0.1" ∷ "10.0.0.3" ∷ []) stale).calls
        ≡ get_added_nodes alice
          ∷ (map
                (λ x. add_node x alice)
                (filter (λ x. not (listed cluster client alice (peers_of stale "10.0.0.1") x)) xs)
              ++ map
                  (λ x. remove_node x alice)
                  (filter (λ x. not (contains ("10.0.0.1" ∷ "10.0.0.3" ∷ []) x)) ys)))
connect_node-calls_example =
    connect_node-calls cluster client alice cluster-RangesOnce ("10.0.0.1" ∷ "10.0.0.3" ∷ []) stale
      (peers_of stale "10.0.0.1") refl

connect_node-has_example :
    has
      (connect_node cluster client alice ("10.0.0.1" ∷ "10.0.0.3" ∷ []) stale).world
      "10.0.0.1"
      "10.0.0.3"
    ≡ true
connect_node-has_example =
    connect_node-has cluster client client-TracksPeers alice refl cluster-RangesOnce
      ("10.0.0.1" ∷ "10.0.0.3" ∷ []) stale "10.0.0.1" "10.0.0.3"

abbrev from_keys : Credentials
from_keys = record { user = "alice"; password = "rabbit"; error = none }

sync_nodes-mesh_example :
    ((sync_nodes cluster client both_nodes "keys" "default" stale).result ≡ some tt)
    × ((server peer : String)
        → has (sync_nodes cluster client both_nodes "keys" "default" stale).world server peer ≡ (
            if ready_at both_nodes server
            then (if peer == server then has stale server peer else ready_at both_nodes peer)
            else has stale server peer))
unfolding credentials_for_secret with_credentials
sync_nodes-mesh_example =
    sync_nodes-mesh cluster client client-TracksPeers cluster-RangesOnce both_nodes "keys" "default"
      stale from_keys refl (λ ip h. refl)

credentials_for_secret-Origin_example :
    (c : Credentials) × ((credentials_for_secret cluster "keys" "default" stale).result ≡ some c)
    × (unlogged (credentials_for_secret cluster "keys" "default" stale).calls
        ≡ get_secret "default" "keys" ∷ [])
    × Origin "keys" (ok secret) c
credentials_for_secret-Origin_example = credentials_for_secret-Origin cluster "keys" "default" stale

-- The daemon's new neighbour is added, and the one that is gone is removed.
connect_run :
    (connect_node cluster client alice ("10.0.0.1" ∷ "10.0.0.3" ∷ []) stale).calls
    ≡ get_added_nodes alice ∷ add_node "10.0.0.3" alice ∷ remove_node "10.0.0.9" alice ∷ []
unfolding connect_node
connect_run = refl
