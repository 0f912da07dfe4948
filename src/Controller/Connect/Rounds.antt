-- ===== src/Controller/Connect/Rounds.antt =====
-- `connectNode` as its two loops, when the added nodes of the daemon could be read.
use bitcoin_controller.Base.{
  ◌≡◌, refl, ap, String, ◌<>◌, Bool, false, List, [], ◌∷◌, ◌++◌, some, contains, map, ◌||◌, ◌&&◌,
  ◌==◌, insert_key, contains-insert_key, arith, NodupKeys, insert_key-NodupKeys, Bool-cases, inl,
  inr,
}
use bitcoin_controller.Client.{Config, AddedNode, BitcoinClient, Result, ok, err, Error, error_text}
use bitcoin_controller.Cluster.{Cluster}
use bitcoin_controller.Apis.{BitcoinNetworkNode}
use bitcoin_controller.Effects.{Run, get_added_nodes, log_error}
use bitcoin_controller.Effects.Loops.{for_each, Total, for_each-total}
use bitcoin_controller.Controller.Connect.{
  added_keys, ready_keys, for_range, add_missing, remove_stale, connect_node,
}

pub contains-added_keys :
    (ns : List AddedNode) (m : List String) (j : String)
    → contains (added_keys ns m) j ≡ (contains m j || contains (map (λ n. n.node_ip) ns) j)
unfolding added_keys
contains-added_keys [] m j = ground arith
contains-added_keys (n ∷ ns) m j =
    ground
      (arith, contains-added_keys ns (insert_key n.node_ip m) j, contains-insert_key n.node_ip m j)

pub added_keys-NodupKeys :
    (ns : List AddedNode) (m : List String) → NodupKeys m → NodupKeys (added_keys ns m)
unfolding added_keys
added_keys-NodupKeys [] m h = h
added_keys-NodupKeys (n ∷ ns) m h =
    added_keys-NodupKeys ns (insert_key n.node_ip m) (insert_key-NodupKeys n.node_ip m h)

pub ready_keys-NodupKeys :
    (ns : List BitcoinNetworkNode) (m : List String) → NodupKeys m → NodupKeys (ready_keys ns m)
unfolding ready_keys
ready_keys-NodupKeys [] m h = h
ready_keys-NodupKeys (n ∷ ns) m h = elim (Bool-cases n.ready) [
  | inl e ↦ rw e (ready_keys-NodupKeys ns (insert_key n.ip m) (insert_key-NodupKeys n.ip m h))
  | inr e ↦ rw e (ready_keys-NodupKeys ns m h)
]

-- A node with this address is ready.
unfoldable pub ready_at : List BitcoinNetworkNode → String → Bool
ready_at [] ip = false
ready_at (n ∷ ns) ip = (n.ready && ip == n.ip) || ready_at ns ip

pub contains-ready_keys :
    (ns : List BitcoinNetworkNode) (m : List String) (j : String)
    → contains (ready_keys ns m) j ≡ (contains m j || ready_at ns j)
unfolding ready_keys ready_at
contains-ready_keys [] m j = ground arith
contains-ready_keys (n ∷ ns) m j = elim (Bool-cases n.ready) [
  | inl e ↦
      rw (e, contains-ready_keys ns (insert_key n.ip m) j, contains-insert_key n.ip m j)
        (ground arith)
  | inr e ↦ rw (e, contains-ready_keys ns m j)
]

-- The addresses that `connectNode` takes for added: those listed, and the daemon's own.
abbrev pub added_map : Config → List AddedNode → List String
added_map c ns = insert_key c.server_ip (added_keys ns [])

pub added_map-NodupKeys : (c : Config) (ns : List AddedNode) → NodupKeys (added_map c ns)
added_map-NodupKeys c ns =
    insert_key-NodupKeys c.server_ip (added_keys ns []) (added_keys-NodupKeys ns [] tt)

module _ (K : Cluster) {Json : Type 0} (R : BitcoinClient K.World Json) where
  pub add_missing-Total : (c : Config) (added : List String) → Total (add_missing K R c added)
  unfolding add_missing
  add_missing-Total c added node w = ground arith

  pub remove_stale-Total : (c : Config) (nodes : List String) → Total (remove_stale K R c nodes)
  unfolding remove_stale
  remove_stale-Total c nodes node w = ground arith

  -- The loop that adds, and the loop that removes.
  abbrev pub adding : Config → List String → List String → K.World → Run K.World (Unit {0})
  adding c added nodes w = for_each (add_missing K R c added) (K.range_order w nodes) w

  abbrev pub removing : Config → List String → List String → K.World → Run K.World (Unit {0})
  removing c nodes added w = for_each (remove_stale K R c nodes) (K.range_order w added) w

  -- If the daemon does not answer, this is logged and nothing else happens.
  pub connect_node-refused :
      (c : Config) (nodes : List String) (w : K.World) (f : Error)
      → (R.get_added_nodes c w).0 ≡ err f
      → connect_node K R c nodes w ≡ record {
        result = some tt;
        world = (R.get_added_nodes c w).1;
        calls =
            get_added_nodes c
            ∷ log_error (
                "Could not get added node list from node "
                <> c.server_ip
                <> ", error message is "
                <> error_text f
                <> "\n")
            ∷ [];
      }
  unfolding connect_node
  connect_node-refused c nodes w f e = ground arith

  pub connect_node-rounds :
      (c : Config) (nodes : List String) (w : K.World) (ns : List AddedNode)
      → (R.get_added_nodes c w).0 ≡ ok ns
      → let first = adding c (added_map c ns) nodes (R.get_added_nodes c w).1 in
        let second = removing c nodes (added_map c ns) first.world in
        connect_node K R c nodes w ≡ record {
          result = some tt;
          world = second.world;
          calls = get_added_nodes c ∷ (first.calls ++ second.calls);
        }
  unfolding connect_node for_range
  connect_node-rounds c nodes w ns e =
      let added = added_map c ns in
      let first = adding c added nodes (R.get_added_nodes c w).1 in
      ground (
        arith,
        for_each-total (add_missing K R c added) (add_missing-Total c added)
            (K.range_order (R.get_added_nodes c w).1 nodes) (R.get_added_nodes c w).1,
        for_each-total (remove_stale K R c nodes) (remove_stale-Total c nodes)
            (K.range_order first.world added) first.world,
      )

  pub connect_node-total :
      (c : Config) (nodes : List String) (w : K.World)
      → (connect_node K R c nodes w).result ≡ some tt
  connect_node-total c nodes w = by_reply (R.get_added_nodes c w).0 refl
    where
      by_reply :
          (r : Result (List AddedNode))
          → (R.get_added_nodes c w).0 ≡ r
          → (connect_node K R c nodes w).result ≡ some tt
      by_reply (ok ns) e = rw (connect_node-rounds c nodes w ns e)
      by_reply (err f) e = ap (λ r. r.result) (connect_node-refused c nodes w f e)
