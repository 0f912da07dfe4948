-- ===== src/Tests/Client.antt =====
-- The RPC client against daemons that keep their added nodes in the world, under their address.
use text.Mathlib.TextLemmas.{append_cancel_left, append_cancel_right}
use bitcoin_controller.Base.{
  ◌≡◌, refl, ap, sym, ◌∙◌, pos, String, ◌<>◌, Bool, ◌==◌, eq_iff, List, [], ◌∷◌, Bool-cases, inl,
  inr, if◌then◌else◌, ◌↔◌, true, arith, format_signed,
}
use bitcoin_controller.Apis.{nil_slice, slice}
use bitcoin_controller.Client.{
  Config, AddedNode, Error, Result, ok, err, foreign, is_ok, error_code_node_already_added,
  error_code_node_not_added,
}
use bitcoin_controller.Client.Peers.{TracksPeers}
use bitcoin_controller.Client.Impl.{
  RpcRequest, RpcResponse, Http, url_of, new_client, new_config, impl_add_node, impl_remove_node,
}
use bitcoin_controller.Client.Impl.Answer.{
  IsForeign, Reports, Answered, was_added, was_missing, add_node-Answered,
}
use bitcoin_controller.Client.Impl.Daemon.{Wire, Bitcoind, new_client-TracksPeers}
use bitcoin_controller.Tests.Lab.{World, has, peers_of, without, contains-peers_of, has-without}

pub data Bytes : Type 0 where
  of_request : RpcRequest → Bytes
  of_nodes : List AddedNode → Bytes

pub record Sent : Type 0 where
  pub url : String
  pub body : Bytes
  pub user : String

abbrev response_with : List AddedNode → RpcResponse (List AddedNode)
response_with nodes = record {
  result = nodes;
  error = record { code = pos 0; message = "" };
  id = "0";
}

abbrev serve : String → Bytes → World → Result (RpcResponse (List AddedNode)) × World
serve url (of_request r) w = elim r.params [
  | nil_slice ↦ (ok (response_with (peers_of w url)), w)
  | slice [] ↦ (ok (response_with []), w)
  | slice (node ∷ []) ↦ (ok (response_with []), w)
  | slice (node ∷ command ∷ more) ↦
      if command == "add"
      then (ok (response_with []), (url, node) ∷ w)
      else (ok (response_with []), without w url node)
]
serve url (of_nodes nodes) w = (err (foreign "net/http" "bad request"), w)

abbrev read_nodes : Bytes → Result (List AddedNode)
read_nodes (of_request r) = err (foreign "encoding/json" "not a list")
read_nodes (of_nodes nodes) = ok nodes

abbrev pub http : Http World (List AddedNode)
http = record {
  Bytes = Bytes;
  HttpRequest = Sent;
  HttpResponse = RpcResponse (List AddedNode);
  encode = λ r. ok (of_request r);
  new_request = λ method url body. ok (record { url = url; body = body; user = "" });
  set_basic_auth = λ user password r. record r { user = user };
  send = λ r w. serve r.url r.body w;
  decode = λ r. ok r;
  marshal = λ nodes. ok (of_nodes nodes);
  unmarshal = read_nodes;
}

abbrev pub wire : Wire http
wire = record {
  encoded = of_request;
  posted = λ url body. record { url = url; body = body; user = "" };
  encodes = λ r. refl;
  posts = λ url body. refl;
}

-- The daemons listen on one port.
abbrev pub Listens : Config → Type 0
Listens c = c.server_port ≡ pos 18332

abbrev pub address : String → String
address server = "http://" <> server <> ":" <> format_signed (pos 18332)

abbrev pub has_at : World → String → String → Bool
has_at w server peer = has w (address server) peer

address-inj : (s t : String) → address s ≡ address t → s ≡ t
address-inj s t e = append_cancel_right s t (":" <> format_signed (pos 18332)) (
    append_cancel_left "http://" (s <> ":" <> format_signed (pos 18332))
      (t <> ":" <> format_signed (pos 18332)) e)

address-eqb : (s t : String) → (address s == address t) ≡ (s == t)
address-eqb s t = elim (Bool-cases (address s == address t)) [
  | inl e ↦ e ∙ sym ((eq_iff s t).1 (address-inj s t ((eq_iff (address s) (address t)).0 e)))
  | inr e ↦
      let same : s ≡ t → address s ≡ address t = ap address in
      ground (arith, e, eq_iff s t, eq_iff (address s) (address t), same)
]

url_of-address : (c : Config) → Listens c → url_of c ≡ address c.server_ip
url_of-address c e = ap (λ port. "http://" <> c.server_ip <> ":" <> format_signed port) e

pub daemons : Bitcoind http wire Listens has_at
daemons = record {
  lists = λ c w a. (
    response_with (peers_of w (url_of c)),
    peers_of w (url_of c),
    refl,
    record {
      answer = response_with (peers_of w (url_of c));
      bytes = of_nodes (peers_of w (url_of c));
      decodes = refl;
      accepted = refl;
      marshals = refl;
      unmarshals = refl;
    },
    λ peer. contains-peers_of w (url_of c) peer ∙ ap (λ u. has w u peer) (url_of-address c a),
  );
  lists_keeps = λ c w server peer. refl;
  adds = λ c w node server peer a.
      rw (url_of-address c a) (ground (arith, address-eqb server c.server_ip));
  removes = λ c w node server peer a.
      has-without w (address server) peer (url_of c) node
      ∙ rw (url_of-address c a, address-eqb server c.server_ip) refl;
}

new_client-TracksPeers_example :
    TracksPeers
      (new_client http (new_config "127.0.0.1" (pos 18332) "user" "password"))
      Listens
      has_at
new_client-TracksPeers_example =
    new_client-TracksPeers http wire (new_config "127.0.0.1" (pos 18332) "user" "password") daemons

-- The errors of the packages here.
reports : Reports http
reports = record {
  encodes = λ r e h. ground arith;
  builds = λ method url b e h. ground arith;
  sends = sends_foreign;
  decodes = λ r e h. ground arith;
}
  where
    serve_foreign :
        (url : String) (b : Bytes) (w : World) (e : Error) → (serve url b w).0 ≡ err e → IsForeign e
    serve_foreign url (of_request r) w e h = ground arith
    serve_foreign url (of_nodes nodes) w e h = ground arith

    sends_foreign : (r : Sent) (w : World) (e : Error) → (http.send r w).0 ≡ err e → IsForeign e
    sends_foreign r w e h = serve_foreign r.url r.body w e h

abbrev local_config : Config
local_config = new_config "127.0.0.1" (pos 18332) "user" "password"

add_node-Answered_example :
    let added = impl_add_node http local_config "10.0.0.3" local_config [] in
    let removed = impl_remove_node http local_config "10.0.0.3" local_config [] in
    ((is_ok added.0 ≡ true)
      ↔ Answered http "addnode" (slice ("10.0.0.3" ∷ "add" ∷ [])) local_config [] (pos 0))
    × ((was_added added.0 ≡ true)
        ↔ Answered http "addnode"
            (slice ("10.0.0.3" ∷ "add" ∷ []))
            local_config
            []
            error_code_node_already_added)
    × ((is_ok removed.0 ≡ true)
        ↔ Answered http "addnode" (slice ("10.0.0.3" ∷ "remove" ∷ [])) local_config [] (pos 0))
    × ((was_missing removed.0 ≡ true)
        ↔ Answered http "addnode"
            (slice ("10.0.0.3" ∷ "remove" ∷ []))
            local_config
            []
            error_code_node_not_added)
add_node-Answered_example = add_node-Answered http reports local_config "10.0.0.3" local_config []
