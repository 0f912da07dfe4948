-- ===== src/Controller/Connect/Mesh.antt =====
-- What a daemon has been told after `connectNode` and `syncNodes`.
use bitcoin_controller.Base.{
  ◌≡◌, refl, String, Bool, true, false, not, ◌&&◌, ◌==◌, eq_iff, eq_refl, List, [], ◌∷◌, some,
  contains, contains-insert_key, if◌then◌else◌, arith, contains-perm,
}
use bitcoin_controller.Apis.{BitcoinNetworkNode}
use bitcoin_controller.Client.{Config, BitcoinClient}
use bitcoin_controller.Client.Peers.{TracksPeers}
use bitcoin_controller.Cluster.{Cluster, RangesOnce}
use bitcoin_controller.Secrets.{Credentials, credentials_for_secret}
use bitcoin_controller.Effects.Loops.{for_each, for_each-nil, for_each-cons, for_each-total}
use bitcoin_controller.Controller.Connect.Rounds.{
  contains-added_keys, ready_at, contains-ready_keys, add_missing-Total, remove_stale-Total,
  added_map, connect_node-rounds, connect_node-total,
}
use bitcoin_controller.Controller.Connect.Run.{sync_nodes-run}
use bitcoin_controller.Controller.Connect.{
  added_keys, ready_keys, add_missing, remove_stale, connect_node, connect_at, with_credentials,
  sync_nodes,
}

module _ (K : Cluster) {Json : Type 0} (R : BitcoinClient K.World Json) where
  module _ {Accepts : Config → Type 0} {has : K.World → String → String → Bool}
      (T : TracksPeers R Accepts has) (c : Config) (accepted : Accepts c) where
    add_missing-has :
        (added : List String) (node : String) (w : K.World) (server peer : String)
        → has (add_missing K R c added node w).world server peer ≡ (
            if server == c.server_ip && (peer == node && not (contains added peer))
            then true
            else has w server peer)
    unfolding add_missing
    add_missing-has added node w server peer =
        ground (arith, T.adds c w node server peer accepted, eq_iff peer node)

    remove_stale-has :
        (nodes : List String) (node : String) (w : K.World) (server peer : String)
        → has (remove_stale K R c nodes node w).world server peer ≡ (
            if server == c.server_ip && (peer == node && not (contains nodes peer))
            then false
            else has w server peer)
    unfolding remove_stale
    remove_stale-has nodes node w server peer =
        ground (arith, T.removes c w node server peer accepted, eq_iff peer node)

    add_loop-has :
        (added xs : List String) (w : K.World) (server peer : String)
        → has (for_each (add_missing K R c added) xs w).world server peer ≡ (
            if server == c.server_ip && (contains xs peer && not (contains added peer))
            then true
            else has w server peer)
    add_loop-has added [] w server peer =
        rw (for_each-nil (add_missing K R c added) (add_missing-Total K R c added)) (ground arith)
    add_loop-has added (x ∷ xs) w server peer =
        rw (for_each-cons (add_missing K R c added) (add_missing-Total K R c added)) (
          ground (
            arith,
            add_loop-has added xs (add_missing K R c added x w).world server peer,
            add_missing-has added x w server peer,
          ))

    remove_loop-has :
        (nodes xs : List String) (w : K.World) (server peer : String)
        → has (for_each (remove_stale K R c nodes) xs w).world server peer ≡ (
            if server == c.server_ip && (contains xs peer && not (contains nodes peer))
            then false
            else has w server peer)
    remove_loop-has nodes [] w server peer =
        rw (for_each-nil (remove_stale K R c nodes) (remove_stale-Total K R c nodes)) (ground arith)
    remove_loop-has nodes (x ∷ xs) w server peer =
        rw (for_each-cons (remove_stale K R c nodes) (remove_stale-Total K R c nodes)) (
          ground (
            arith,
            remove_loop-has nodes xs (remove_stale K R c nodes x w).world server peer,
            remove_stale-has nodes x w server peer,
          ))

    module _ (L : RangesOnce K) where
      -- If the daemons do for the calls of the client what is documented of the added nodes, and a
      -- range over a map goes once through each key: after `connectNode` a daemon that accepts the
      -- configuration has the nodes of the list as its added nodes and no others. Its own address is
      -- neither added nor, if it is in the list, removed. The other daemons keep what they had.
      pub connect_node-has :
          (nodes : List String) (w : K.World) (server peer : String)
          → has (connect_node K R c nodes w).world server peer ≡ (
              if server == c.server_ip
              then (if peer == c.server_ip
                  then contains nodes peer && has w server peer
                  else contains nodes peer)
              else has w server peer)
      connect_node-has nodes w server peer =
          let (ns, listed, same) = T.lists c w accepted in
          let added = added_map c ns in
          let w₁ = (R.get_added_nodes c w).1 in
          let order₁ = K.range_order w₁ nodes in
          let w₂ = (for_each (add_missing K R c added) order₁ w₁).world in
          let order₂ = K.range_order w₂ added in
          rw (connect_node-rounds K R c nodes w ns listed) (
            ground (
              arith,
              remove_loop-has nodes order₂ w₂ server peer,
              add_loop-has added order₁ w₁ server peer,
              contains-perm (L.range-perm w₁ nodes) peer,
              contains-perm (L.range-perm w₂ added) peer,
              contains-insert_key c.server_ip (added_keys ns []) peer,
              contains-added_keys ns [] peer,
              same peer,
              T.lists_keeps c w server peer,
              eq_iff server c.server_ip,
              eq_iff peer c.server_ip,
            ))

module _ (K : Cluster) {Json : Type 0} (R : BitcoinClient K.World Json) {Accepts : Config → Type 0}
    {has : K.World → String → String → Bool} (T : TracksPeers R Accepts has)
    (L : RangesOnce K) where
  -- The loop of `syncNodes`, over keys in the order of the run.
  sync_loop-has :
      (config : Config) (ready xs : List String) (w : K.World) (server peer : String)
      → ((ip : String) → contains xs ip ≡ true → Accepts (record config { server_ip = ip }))
      → has (for_each (connect_at K R config ready) xs w).world server peer ≡ (
          if contains xs server
          then (if peer == server
              then contains ready peer && has w server peer
              else contains ready peer)
          else has w server peer)
  sync_loop-has config ready [] w server peer accepts =
      rw (for_each-nil (connect_at K R config ready) (λ ip. connect_node-total K R _ ready)) refl
  sync_loop-has config ready (x ∷ xs) w server peer accepts =
      let c : Config = record config { server_ip = x } in
      rw (for_each-cons (connect_at K R config ready) (λ ip. connect_node-total K R _ ready)) (
        ground (
          arith,
          sync_loop-has config ready xs (connect_node K R c ready w).world server peer
              (λ ip h. accepts ip (ground arith)),
          connect_node-has K R T c (accepts x (rw eq_refl refl)) L ready w server peer,
          eq_iff server x,
          eq_iff peer server,
        ))

  -- If every ready node accepts the credentials that were found, `syncNodes` returns and leaves a full
  -- mesh: each ready node has the other ready nodes as its added nodes and no others. What it had
  -- of its own address when the credentials had been read stays, and the daemons that are not
  -- ready keep all that they had then.
  pub sync_nodes-mesh :
      (nodes : List BitcoinNetworkNode) (name namespace : String) (w : K.World) (cred : Credentials)
      → (credentials_for_secret K name namespace w).result ≡ some cred
      → ((ip : String)
          → ready_at nodes ip ≡ true
          → Accepts (record (with_credentials K R cred) { server_ip = ip }))
      → let before = (credentials_for_secret K name namespace w).world in
        let run = sync_nodes K R nodes name namespace w in
        (run.result ≡ some tt)
        × ((server peer : String)
            → has run.world server peer ≡ (
                if ready_at nodes server
                then (if peer == server then has before server peer else ready_at nodes peer)
                else has before server peer))
  sync_nodes-mesh nodes name namespace w cred got accepts =
      let config = with_credentials K R cred in
      let ready = ready_keys nodes [] in
      let first = credentials_for_secret K name namespace w in
      let order = K.range_order first.world ready in
      let in_ready = λ (ip : String). contains-perm (L.range-perm first.world ready) ip in
      rw (sync_nodes-run K R nodes name namespace w cred got) (
        for_each-total (connect_at K R config ready) (λ ip. connect_node-total K R _ ready) order
            first.world,
        λ server peer. ground (
          arith,
          sync_loop-has config ready order first.world server peer
              (λ ip h. accepts ip (ground (arith, in_ready ip, contains-ready_keys nodes [] ip))),
          in_ready server,
          contains-ready_keys nodes [] server,
          contains-ready_keys nodes [] peer,
          eq_iff peer server,
        ),
      )
