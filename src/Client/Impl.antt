-- ===== src/Client/Impl.antt =====
-- `bitcoinClientImpl`. The packages net/http and encoding/json are a parameter.
pub mod Daemon
pub mod Answer
use bitcoin_controller.Base.{
  ℤ, pos, String, ◌<>◌, not, List, [], ◌∷◌, Option, none, some, ℤ_eqb, if◌then◌else◌, format_signed,
}
use bitcoin_controller.Apis.{Slice, nil_slice, slice}
use bitcoin_controller.Client.{
  RpcError, rpc_error, Result, ok, err, Config, AddedNode, Request, BitcoinClient,
}

pub record RpcRequest : Type 0 where
  pub json_rpc : ℤ
  pub id : String
  pub method : String
  pub params : Slice String

pub record RpcResponse (Json : Type 0) : Type 0 where
  pub result : Json
  pub error : RpcError
  pub id : String

-- What the client uses of net/http and encoding/json.
pub record Http (W Json : Type 0) : Type 1 where
  pub Bytes : Type 0
  pub HttpRequest : Type 0
  pub HttpResponse : Type 0
  -- `json.NewEncoder(buf).Encode(rpcRequest)`
  pub encode : RpcRequest → Result Bytes
  -- `http.NewRequest(method, url, body)`, `SetBasicAuth(user, password)`
  pub new_request : String → String → Bytes → Result HttpRequest
  pub set_basic_auth : String → String → HttpRequest → HttpRequest
  -- `HTTPClient.Do`
  pub send : HttpRequest → Request W HttpResponse
  -- `json.NewDecoder(response.Body).Decode(&rpcResponse)`
  pub decode : HttpResponse → Result (RpcResponse Json)
  -- `json.Marshal(rawNodes)`, `json.Unmarshal(bytes, &addedNodeList)`
  pub marshal : Json → Result Bytes
  pub unmarshal : Bytes → Result (List AddedNode)

unfoldable pub new_config : String → ℤ → String → String → Config
new_config server_ip server_port rpcuser rpcpassword = record {
  server_ip = server_ip;
  server_port = server_port;
  rpc_user = rpcuser;
  rpc_password = rpcpassword;
}

abbrev pub url_of : Config → String
url_of c = "http://" <> c.server_ip <> ":" <> format_signed c.server_port

abbrev pub rpc_request : String → Slice String → RpcRequest
rpc_request method params = record { json_rpc = pos 1; id = "0"; method = method; params = params }

module _ {W Json : Type 0} (H : Http W Json) where
  -- The request, without the credentials: what is done before anything is sent.
  unfoldable pub prepare : String → Slice String → Config → Result H.HttpRequest
  prepare method params config = elim (H.encode (rpc_request method params)) [
    | err e ↦ err e
    | ok body ↦ H.new_request "POST" (url_of config) body
  ]

  -- What is made of the response.
  unfoldable pub interpret : H.HttpResponse → Result Json
  interpret response = elim (H.decode response) [
    | err e ↦ err e
    | ok r ↦ if not (ℤ_eqb r.error.code (pos 0)) then err (rpc_error r.error) else ok r.result
  ]

  -- `RawRequest` once the configuration is settled.
  unfoldable pub request_with : String → Slice String → Config → Request W Json
  unfolding prepare interpret
  request_with method params config w = elim (prepare method params config) [
    | err e ↦ (err e, w)
    | ok request ↦
        let (reply, w') = H.send (H.set_basic_auth config.rpc_user config.rpc_password request) w in
        elim reply [ err e ↦ (err e, w') | ok response ↦ (interpret response, w') ]
  ]

  -- The first argument is the configuration of the client.
  unfoldable pub raw_request : Config → String → Slice String → Option Config → Request W Json
  unfolding request_with
  raw_request own method params none = request_with method params own
  raw_request own method params (some config) = request_with method params config

  -- `_, err := ...; return err`
  abbrev pub drop_result : Result Json → Result (Unit {0})
  drop_result (ok _) = ok tt
  drop_result (err e) = err e

  unfoldable pub impl_add_node : Config → String → Config → Request W (Unit {0})
  unfolding raw_request
  impl_add_node own node_ip config w =
      let (reply, w') = raw_request own "addnode" (slice (node_ip ∷ "add" ∷ [])) (some config) w in
      (drop_result reply, w')

  unfoldable pub impl_remove_node : Config → String → Config → Request W (Unit {0})
  unfolding raw_request
  impl_remove_node own node_ip config w =
      let (reply, w') =
        raw_request own "addnode" (slice (node_ip ∷ "remove" ∷ [])) (some config) w in
      (drop_result reply, w')

  -- The list in the result, by way of its JSON text.
  unfoldable pub nodes_of : Json → Result (List AddedNode)
  nodes_of raw = elim (H.marshal raw) [ err e ↦ err e | ok bytes ↦ H.unmarshal bytes ]

  unfoldable pub impl_get_added_nodes : Config → Config → Request W (List AddedNode)
  unfolding raw_request nodes_of
  impl_get_added_nodes own config w =
      let (reply, w') = raw_request own "getaddednodeinfo" nil_slice (some config) w in
      elim reply [ err e ↦ (err e, w') | ok raw ↦ (nodes_of raw, w') ]

  unfoldable pub new_client : Config → BitcoinClient W Json
  unfolding impl_add_node impl_remove_node impl_get_added_nodes
  new_client config = record {
    raw_request = raw_request config;
    add_node = impl_add_node config;
    remove_node = impl_remove_node config;
    get_added_nodes = impl_get_added_nodes config;
    get_config = config;
  }

  -- `NewClientForConfig`: the HTTP client is that of net/http.
  unfoldable pub new_client_for_config : Config → BitcoinClient W Json
  unfolding new_client
  new_client_for_config config = new_client config
