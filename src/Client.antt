-- ===== src/Client.antt =====
-- internal/bitcoinclient/bitcoinclient.go: the types, the errors and the interface of a client.
pub mod Peers
pub mod Impl
use bitcoin_controller.Base.{
  ℤ, negsuc, ℕ, String, Bool, true, false, List, Option, ℤ_eqb, if◌then◌else◌, not,
}
use bitcoin_controller.Apis.{Slice}

pub record RpcError : Type 0 where
  pub code : ℤ
  pub message : String

-- A value of Go's `error`: an `RPCError`, or one made elsewhere (Kubernetes, net/http,
-- encoding/json), with its kind and its text.
pub data Error : Type 0 where
  rpc_error : RpcError → Error
  foreign : String → String → Error

-- `err.Error()`
abbrev pub error_text : Error → String
error_text (rpc_error e) = e.message
error_text (foreign kind message) = message

-- Two results, one of them an `error`.
pub data Result {ℓ} (A : Type ℓ) : Type ℓ where
  ok : A → Result A
  err : Error → Result A

abbrev pub is_ok : {A : Type 0} → Result A → Bool
is_ok (ok a) = true
is_ok (err e) = false

abbrev pub error_code_node_already_added : ℤ
error_code_node_already_added = negsuc 22

abbrev pub error_code_node_not_added : ℤ
error_code_node_not_added = negsuc 23

unfoldable pub is_node_already_added : Error → Bool
is_node_already_added (rpc_error e) =
    if not (ℤ_eqb e.code error_code_node_already_added) then false else true
is_node_already_added (foreign kind message) = false

unfoldable pub is_node_not_added : Error → Bool
is_node_not_added (rpc_error e) =
    if not (ℤ_eqb e.code error_code_node_not_added) then false else true
is_node_not_added (foreign kind message) = false

pub record Config : Type 0 where
  pub server_ip : String
  pub server_port : ℤ
  pub rpc_user : String
  pub rpc_password : String

pub record AddedNode : Type 0 where
  pub node_ip : String
  pub connected : Bool

-- A call that leaves the process: its result, and the world after it.
abbrev pub Request : Type 0 → Type 0 → Type 0
Request W A = W → Result A × W

-- The interface `BitcoinClient` over a world. `none` is a nil config.
pub record BitcoinClient (W Json : Type 0) : Type 0 where
  pub raw_request : String → Slice String → Option Config → Request W Json
  pub add_node : String → Config → Request W (Unit {0})
  pub remove_node : String → Config → Request W (Unit {0})
  pub get_added_nodes : Config → Request W (List AddedNode)
  pub get_config : Config
