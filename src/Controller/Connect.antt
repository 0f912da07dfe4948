-- ===== src/Controller/Connect.antt =====
-- `connectNode` and `syncNodes`. The Go maps are sets of addresses: lists with no key twice.
pub mod Rounds
pub mod Run
pub mod Calls
pub mod Mesh
use bitcoin_controller.Base.{
  String, ◌<>◌, not, List, [], ◌∷◌, none, some, contains, insert_key, if◌then◌else◌,
}
use bitcoin_controller.Apis.{BitcoinNetworkNode}
use bitcoin_controller.Client.{
  error_text, ok, err, is_node_already_added, is_node_not_added, Config, AddedNode, BitcoinClient,
}
use bitcoin_controller.Effects.{
  get_added_nodes, add_node, remove_node, Exec, pure, request, error_log, ◌>>=◌, ◌>>◌,
}
use bitcoin_controller.Effects.Loops.{for_each}
use bitcoin_controller.Cluster.{Cluster}
use bitcoin_controller.Secrets.{Credentials, credentials_for_secret}

-- `for _, addedNode := range addedNodes { m[addedNode.NodeIP] = struct{}{} }`
unfoldable pub added_keys : List AddedNode → List String → List String
added_keys [] m = m
added_keys (n ∷ ns) m = added_keys ns (insert_key n.node_ip m)

-- The addresses of the nodes that are ready.
unfoldable pub ready_keys : List BitcoinNetworkNode → List String → List String
ready_keys [] m = m
ready_keys (n ∷ ns) m = ready_keys ns (if n.ready then insert_key n.ip m else m)

module _ (K : Cluster) where
  -- `for key := range m { ... }`
  unfoldable pub for_range :
      (String → Exec K.World (Unit {0})) → List String → Exec K.World (Unit {0})
  unfolding for_each
  for_range body m w = for_each body (K.range_order w m) w

module _ (K : Cluster) {Json : Type 0} (R : BitcoinClient K.World Json) where
  -- One round of the first loop.
  unfoldable pub add_missing : Config → List String → String → Exec K.World (Unit {0})
  add_missing config added node = if contains added node then pure tt else do
    reply ← request (add_node node config) (R.add_node node config)
    elim reply [
      | ok _ ↦ pure tt
      | err e ↦
          if not (is_node_already_added e)
          then error_log (
              "Could not add node "
              <> node
              <> " to "
              <> config.server_ip
              <> ", error is "
              <> error_text e
              <> "\n")
          else pure tt
    ]

  -- One round of the second loop.
  unfoldable pub remove_stale : Config → List String → String → Exec K.World (Unit {0})
  remove_stale config nodes node = if contains nodes node then pure tt else do
    reply ← request (remove_node node config) (R.remove_node node config)
    elim reply [
      | ok _ ↦ pure tt
      | err e ↦
          if not (is_node_not_added e)
          then error_log (
              "Could not remove node "
              <> node
              <> " from "
              <> config.server_ip
              <> ", error is "
              <> error_text e
              <> "\n")
          else pure tt
    ]

  unfoldable pub connect_node : Config → List String → Exec K.World (Unit {0})
  unfolding add_missing remove_stale for_range added_keys
  connect_node config nodes = do
    reply ← request (get_added_nodes config) (R.get_added_nodes config)
    elim reply [
      | err e ↦ error_log (
          "Could not get added node list from node "
          <> config.server_ip
          <> ", error message is "
          <> error_text e
          <> "\n")
      | ok added_nodes ↦ do
        let added = insert_key config.server_ip (added_keys added_nodes [])
        for_range K (add_missing config added) nodes
        for_range K (remove_stale config nodes) added
    ]

  -- The configuration of the client with the credentials of the secret, if there are any.
  unfoldable pub with_credentials : Credentials → Config
  with_credentials c = elim c.error [
    | some _ ↦ R.get_config
    | none ↦ record (R.get_config) { rpc_user = c.user; rpc_password = c.password }
  ]

  -- `config.ServerIP = nodeIP; c.connectNode(&config, readyNodes)`
  abbrev pub connect_at : Config → List String → String → Exec K.World (Unit {0})
  connect_at config ready ip = connect_node (record config { server_ip = ip }) ready

  unfoldable pub sync_nodes : List BitcoinNetworkNode → String → String → Exec K.World (Unit {0})
  unfolding ready_keys with_credentials for_range
  sync_nodes node_list secret_name secret_namespace = do
    let ready = ready_keys node_list []
    credentials ← credentials_for_secret K secret_name secret_namespace
    let config = with_credentials credentials
    for_range K (connect_at config ready) ready
