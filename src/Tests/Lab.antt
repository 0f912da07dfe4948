-- ===== src/Tests/Lab.antt =====
-- A cluster with one network of two ready nodes, and daemons that keep their added nodes in the
-- world: a list of pairs of a server and a peer.
use mathlib.Core.List.Perm
use bitcoin_controller.Base.{
  ℕ, ◌≡◌, refl, String, ◌<>◌, ◌==◌, eq_iff, Bool, true, false, ◌&&◌, ◌||◌, List, [], ◌∷◌, map,
  contains, Option, none, some, pos, arith, if◌then◌else◌,
}
use bitcoin_controller.Kube.{
  ObjectMeta, OwnerReference, Service, StatefulSet, Pod, Secret, AnyObject, object, not_object,
}
use bitcoin_controller.Apis.{BitcoinNetwork, BitcoinNetworkNode, slice, nil_slice}
use bitcoin_controller.Client.{
  Error, rpc_error, foreign, Result, ok, err, Config, AddedNode, BitcoinClient,
}
use bitcoin_controller.Client.Peers.{TracksPeers}
use bitcoin_controller.Effects.{other_item}
use bitcoin_controller.Cluster.{Cluster, RangesOnce, RefersToOwner, HasKey}

abbrev pub World : Type 0
World = List (String × String)

abbrev pub has : World → String → String → Bool
has [] server peer = false
has ((s, p) ∷ w) server peer = (server == s && peer == p) || has w server peer

abbrev pub peers_of : World → String → List AddedNode
peers_of [] server = []
peers_of ((s, p) ∷ w) server =
    let rest = peers_of w server in
    if server == s then record { node_ip = p; connected = true } ∷ rest else rest

abbrev pub without : World → String → String → World
without [] server peer = []
without ((s, p) ∷ w) server peer =
    let rest = without w server peer in if server == s && peer == p then rest else (s, p) ∷ rest

abbrev pub client : BitcoinClient World (Unit {0})
client = record {
  raw_request = λ method params config w. (ok tt, w);
  add_node = λ node c w. (ok tt, (c.server_ip, node) ∷ w);
  remove_node = λ node c w. (ok tt, without w c.server_ip node);
  get_added_nodes = λ c w. (ok (peers_of w c.server_ip), w);
  get_config = record {
    server_ip = "127.0.0.1";
    server_port = pos 18332;
    rpc_user = "user";
    rpc_password = "password";
  };
}

pub contains-peers_of :
    (w : World) (server peer : String)
    → contains (map (λ n. n.node_ip) (peers_of w server)) peer ≡ has w server peer
contains-peers_of [] server peer = refl
contains-peers_of ((s, p) ∷ w) server peer = ground (arith, contains-peers_of w server peer)

pub has-without :
    (w : World) (server peer s p : String)
    → has (without w s p) server peer
      ≡ (if server == s && peer == p then false else has w server peer)
has-without [] server peer s p = ground arith
has-without ((a, b) ∷ w) server peer s p = ground (
  arith,
  has-without w server peer s p,
  eq_iff server s,
  eq_iff peer p,
  eq_iff s a,
  eq_iff p b,
  eq_iff server a,
  eq_iff peer b,
)

-- The daemons want this user.
abbrev pub Accepts : Config → Type 0
Accepts c = c.rpc_user ≡ "alice"

pub client-TracksPeers : TracksPeers client Accepts has
client-TracksPeers = record {
  lists = λ c w a. (peers_of w c.server_ip, refl, λ peer. contains-peers_of w c.server_ip peer);
  lists_keeps = λ c w server peer. refl;
  adds = λ c w node server peer a. ground arith;
  removes = λ c w node server peer a. has-without w server peer c.server_ip node;
}

abbrev pub plain_meta : String → ObjectMeta
plain_meta name = record {
  name = name;
  namespace = "default";
  uid = "1";
  labels = [];
  owner_references = [];
  deletion_timestamp = none;
}

abbrev pub network : BitcoinNetwork
network = record {
  type_meta = record { kind = "BitcoinNetwork"; api_version = "v1" };
  meta = plain_meta "net";
  spec = record { nodes = pos 3; secret = "keys" };
  status = record { nodes = nil_slice };
}

-- The node of a ready pod.
abbrev pub node : ℕ → String → String → BitcoinNetworkNode
node i name ip = record {
  ordinal = pos i;
  ready = true;
  ip = ip;
  node_name = name;
  dns_name = name <> ".net-svc";
}

abbrev pub both_nodes : List BitcoinNetworkNode
both_nodes = node 0 "net-sts-0" "10.0.0.1" ∷ node 2 "net-sts-2" "10.0.0.3" ∷ []

abbrev pub settled_network : BitcoinNetwork
settled_network = record network { status = record { nodes = slice both_nodes } }

abbrev pub service : Service
service = record {
  type_meta = record { kind = "Service"; api_version = "v1" };
  meta = plain_meta "net-svc";
  cluster_ip = "None";
  selector = [];
}

abbrev pub set : StatefulSet
set = record {
  type_meta = record { kind = "StatefulSet"; api_version = "apps/v1" };
  meta = plain_meta "net-sts";
  spec = record {
    replicas = some (pos 2);
    service_name = "net-svc";
    match_labels = [];
    template = record { meta = plain_meta ""; containers = [] };
  };
}

abbrev pub pod : String → String → Pod
pod name ip = record {
  meta = plain_meta name;
  conditions = record { type = "Ready"; status = "True" } ∷ [];
  pod_ip = ip;
}

abbrev pub not_found : Error
not_found = foreign "NotFound" "not found"

-- The pods 0 and 2 are there.
abbrev pub pods : String → Result Pod
pods name =
    if name == "net-sts-0"
    then ok (pod name "10.0.0.1")
    else if name == "net-sts-2"
    then ok (pod name "10.0.0.3")
    else err not_found

abbrev pub secret : Secret
secret = record { entries = ("BC_RPC_USER", "alice") ∷ ("BC_RPC_PASSWORD", "rabbit") ∷ [] }

abbrev first_ref : List OwnerReference → Option OwnerReference
first_ref [] = none
first_ref (r ∷ rs) = some r

abbrev controller_of : Option ObjectMeta → Option (Option OwnerReference)
controller_of none = none
controller_of (some m) = some (first_ref m.owner_references)

abbrev key_of : AnyObject → Result String
key_of (object m) = ok (m.namespace <> "/" <> m.name)
key_of not_object = err (foreign "meta" "object has no meta")

abbrev is_not_found : Error → Bool
is_not_found (rpc_error e) = false
is_not_found (foreign kind message) = kind == "NotFound"

-- The cluster whose caches have this network.
abbrev pub cluster_of : BitcoinNetwork → Cluster
cluster_of network = record {
  World = World;
  get_network = λ ns name w. (if name == "net" then ok network else err not_found, w);
  get_service = λ ns name w. (ok service, w);
  get_stateful_set = λ ns name w. (ok set, w);
  pods = λ ns. some (λ name w. (pods name, w));
  create_service = λ ns s w. (ok s, w);
  create_stateful_set = λ ns s w. (ok set, w);
  update_stateful_set = λ ns s w. (ok s, w);
  update_status = λ ns n w. (ok n, w);
  get_secret = λ ns name w. (ok secret, w);
  record_event = λ n type reason message w. w;
  is_not_found = is_not_found;
  is_already_exists = λ e. false;
  new_controller_ref = λ o k. record {
    api_version = k.version;
    kind = k.kind;
    name = o.name;
    uid = o.uid;
    controller = true;
  };
  get_controller_of = controller_of;
  meta_namespace_key = key_of;
  split_key = λ key.
      if key == "default/net"
      then ok ("default", "net")
      else err (foreign "key" "unexpected key format");
  queue_add = λ key w. w;
  queue_len = λ w. 0;
  queue_get = λ w. ((other_item "end", true), w);
  queue_done = λ item w. w;
  wait_for_cache_sync = λ fs w. (true, w);
  start_worker = λ w. w;
  range_order = λ w m. m;
}

abbrev pub cluster : Cluster
cluster = cluster_of network

pub cluster-RangesOnce : RangesOnce cluster
cluster-RangesOnce = record { range-perm = λ w m. Perm.refl m }

pub cluster-RefersToOwner : RefersToOwner cluster
cluster-RefersToOwner = record {
  ref_kind = λ o k. refl;
  ref_name = λ o k. refl;
  ref_found = λ m o k e. ground arith;
}

abbrev pub network-HasKey : HasKey cluster network.meta
network-HasKey = record { key = "default/net"; key_formed = refl; key_splits = refl }
