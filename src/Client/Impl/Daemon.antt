-- ===== src/Client/Impl/Daemon.antt =====
-- The client against daemons that do what bitcoind documents of its JSON-RPC interface.
use bitcoin_controller.Base.{
  ◌≡◌, ap, ◌∙◌, pos, String, Bool, true, false, ◌&&◌, ◌==◌, List, [], ◌∷◌, map, contains,
  if◌then◌else◌, arith,
}
use bitcoin_controller.Apis.{Slice, nil_slice, slice}
use bitcoin_controller.Client.{Config, AddedNode, ok}
use bitcoin_controller.Client.Peers.{TracksPeers}
use bitcoin_controller.Client.Impl.{
  RpcRequest, RpcResponse, Http, url_of, rpc_request, prepare, interpret, request_with, raw_request,
  nodes_of, impl_add_node, impl_remove_node, impl_get_added_nodes, new_client,
}

module _ {W Json : Type 0} (H : Http W Json) where
  -- The requests can be encoded, and their addresses parsed.
  pub record Wire : Type 0 where
    pub encoded : RpcRequest → H.Bytes
    pub posted : String → H.Bytes → H.HttpRequest
    pub encodes : (r : RpcRequest) → H.encode r ≡ ok (encoded r)
    pub posts :
        (url : String) (body : H.Bytes) → H.new_request "POST" url body ≡ ok (posted url body)

  module _ (V : Wire) where
    -- A request as the daemon of the configuration receives it.
    abbrev pub message : String → Slice String → Config → H.HttpRequest
    message method params c =
        H.set_basic_auth c.rpc_user c.rpc_password
          (V.posted (url_of c) (V.encoded (rpc_request method params)))

    -- The JSON of a list of added nodes, as the daemon sends it and the client reads it.
    pub record Listing (response : H.HttpResponse) (nodes : List AddedNode) : Type 0 where
      pub answer : RpcResponse Json
      pub bytes : H.Bytes
      pub decodes : H.decode response ≡ ok answer
      pub accepted : answer.error.code ≡ pos 0
      pub marshals : H.marshal answer.result ≡ ok bytes
      pub unmarshals : H.unmarshal bytes ≡ ok nodes

    -- `addnode` and `getaddednodeinfo` of the daemons, on the level of HTTP.
    pub record Bitcoind (Accepts : Config → Type 0) (has : W → String → String → Bool)
        : Type 0 where
      pub lists :
          (c : Config) (w : W)
          → Accepts c
          → (response : H.HttpResponse) × (nodes : List AddedNode) × ((H.send
                (message "getaddednodeinfo" nil_slice c)
                w).0
              ≡ ok response)
            × Listing response nodes
            × ((peer : String)
                → contains (map (λ n. n.node_ip) nodes) peer ≡ has w c.server_ip peer)
      pub lists_keeps :
          (c : Config) (w : W) (server peer : String)
          → has (H.send (message "getaddednodeinfo" nil_slice c) w).1 server peer
            ≡ has w server peer
      pub adds :
          (c : Config) (w : W) (node server peer : String)
          → Accepts c
          → has (H.send (message "addnode" (slice (node ∷ "add" ∷ [])) c) w).1 server peer
            ≡ (if server == c.server_ip && peer == node then true else has w server peer)
      pub removes :
          (c : Config) (w : W) (node server peer : String)
          → Accepts c
          → has (H.send (message "addnode" (slice (node ∷ "remove" ∷ [])) c) w).1 server peer
            ≡ (if server == c.server_ip && peer == node then false else has w server peer)

    prepare-message :
        (method : String) (params : Slice String) (c : Config)
        → prepare H method params c
          ≡ ok (V.posted (url_of c) (V.encoded (rpc_request method params)))
    unfolding prepare
    prepare-message method params c = ground (
      arith,
      V.encodes (rpc_request method params),
      V.posts (url_of c) (V.encoded (rpc_request method params)),
    )

    -- One message is sent, and nothing else changes the world.
    request_with-world :
        (method : String) (params : Slice String) (c : Config) (w : W)
        → (request_with H method params c w).1 ≡ (H.send (message method params c) w).1
    unfolding request_with
    request_with-world method params c w = ground (arith, prepare-message method params c)

    request_with-reply :
        (method : String) (params : Slice String) (c : Config) (w : W) (response : H.HttpResponse)
        → (H.send (message method params c) w).0 ≡ ok response
        → (request_with H method params c w).0 ≡ interpret H response
    unfolding request_with
    request_with-reply method params c w response e =
        ground (arith, prepare-message method params c, e)

    interpret-Listing :
        (response : H.HttpResponse) (nodes : List AddedNode) (l : Listing response nodes)
        → interpret H response ≡ ok l.answer.result
    unfolding interpret
    interpret-Listing response nodes l = ground (arith, l.decodes, l.accepted)

    module _ (own : Config) where
      get_added_nodes-world :
          (c : Config) (w : W)
          → (impl_get_added_nodes H own c w).1
            ≡ (H.send (message "getaddednodeinfo" nil_slice c) w).1
      unfolding impl_get_added_nodes raw_request
      get_added_nodes-world c w =
          ground (arith, request_with-world "getaddednodeinfo" nil_slice c w)

      get_added_nodes-Listing :
          (c : Config) (w : W) (response : H.HttpResponse) (nodes : List AddedNode)
          → (H.send (message "getaddednodeinfo" nil_slice c) w).0 ≡ ok response
          → Listing response nodes
          → (impl_get_added_nodes H own c w).0 ≡ ok nodes
      unfolding impl_get_added_nodes raw_request nodes_of
      get_added_nodes-Listing c w response nodes e l =
          let reply = request_with-reply "getaddednodeinfo" nil_slice c w response e in
          ground (arith, reply, interpret-Listing response nodes l, l.marshals, l.unmarshals)

      add_node-world :
          (node : String) (c : Config) (w : W)
          → (impl_add_node H own node c w).1
            ≡ (H.send (message "addnode" (slice (node ∷ "add" ∷ [])) c) w).1
      unfolding impl_add_node raw_request
      add_node-world node c w = request_with-world "addnode" (slice (node ∷ "add" ∷ [])) c w

      remove_node-world :
          (node : String) (c : Config) (w : W)
          → (impl_remove_node H own node c w).1
            ≡ (H.send (message "addnode" (slice (node ∷ "remove" ∷ [])) c) w).1
      unfolding impl_remove_node raw_request
      remove_node-world node c w = request_with-world "addnode" (slice (node ∷ "remove" ∷ [])) c w

      -- A client that `NewClient` makes keeps track of the added nodes of the daemons, if the daemons
      -- do what bitcoind documents of `addnode` and `getaddednodeinfo` on the level of HTTP.
      pub new_client-TracksPeers :
          {Accepts : Config → Type 0} {has : W → String → String → Bool}
          → Bitcoind Accepts has
          → TracksPeers (new_client H own) Accepts has
      unfolding new_client
      new_client-TracksPeers {Accepts} {has} B = record {
        lists = λ c w a.
            let (response, nodes, sent, listing, same) = B.lists c w a in
            (nodes, get_added_nodes-Listing c w response nodes sent listing, same);
        lists_keeps = λ c w server peer.
            ap (λ u. has u server peer) (get_added_nodes-world c w) ∙ B.lists_keeps c w server peer;
        adds = λ c w node server peer a.
            ap (λ u. has u server peer) (add_node-world node c w) ∙ B.adds c w node server peer a;
        removes = λ c w node server peer a.
            ap (λ u. has u server peer) (remove_node-world node c w)
            ∙ B.removes c w node server peer a;
      }
