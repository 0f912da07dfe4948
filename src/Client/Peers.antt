-- ===== src/Client/Peers.antt =====
-- What bitcoind documents of `addnode` and `getaddednodeinfo`, as laws of a client.
use bitcoin_controller.Base.{
  ◌≡◌, String, Bool, true, false, ◌&&◌, ◌==◌, List, map, contains, if◌then◌else◌,
}
use bitcoin_controller.Client.{Config, AddedNode, ok, BitcoinClient}

-- `has w server peer`: in this world the daemon on `server` has `peer` among its added nodes.
-- `Accepts c`: the daemon of the configuration is up and takes its credentials. Nobody else adds or
-- removes nodes in the course of a request.
pub record TracksPeers {W Json : Type 0} (R : BitcoinClient W Json) (Accepts : Config → Type 0)
    (has : W → String → String → Bool) : Type 0 where
  pub lists :
      (c : Config) (w : W)
      → Accepts c
      → (nodes : List AddedNode) × ((R.get_added_nodes c w).0 ≡ ok nodes)
        × ((peer : String) → contains (map (λ n. n.node_ip) nodes) peer ≡ has w c.server_ip peer)
  pub lists_keeps :
      (c : Config) (w : W) (server peer : String)
      → has (R.get_added_nodes c w).1 server peer ≡ has w server peer
  pub adds :
      (c : Config) (w : W) (node server peer : String)
      → Accepts c
      → has (R.add_node node c w).1 server peer
        ≡ (if server == c.server_ip && peer == node then true else has w server peer)
  pub removes :
      (c : Config) (w : W) (node server peer : String)
      → Accepts c
      → has (R.remove_node node c w).1 server peer
        ≡ (if server == c.server_ip && peer == node then false else has w server peer)
