-- ===== src/Tests/Cache.antt =====
-- The lister, the deep copy of a list and the requests for collections at work.
use bitcoin_controller.Base.{
  ◌≡◌, refl, ℕ, pos, String, ◌<>◌, ◌==◌, Bool, true, ◌&&◌, List, [], ◌∷◌, map, filter, All, none,
  some, Option, arith,
}
use bitcoin_controller.Kube.{ListOptions}
use bitcoin_controller.Apis.{BitcoinNetwork, slice, slice_of}
use bitcoin_controller.Client.{Result, ok, err}
use bitcoin_controller.Generated.Lister.{
  Indexer, new_bitcoin_network_lister, in_namespace, lister_list, namespace_list, namespace_get,
}
use bitcoin_controller.Generated.Lister.Held.{find_key, stored_option, Holds, found, lister-Holds}
use bitcoin_controller.Generated.Lister.{stored_network}
use bitcoin_controller.Generated.DeepCopy.{
  Heap, NetworkRef, ListRef, RuntimeObject, list_deep_copy_object, slice_at, list_at, list_value,
  object_at,
}
use bitcoin_controller.Generated.DeepCopy.Objects.{IsNew, networks_of, list_deep_copy_object-values}
use bitcoin_controller.Generated.Rest.{
  list_request, watch_request, delete_collection_request, timeout_of,
}
use bitcoin_controller.Generated.Rest.Timeout.{IsInt64, residue, nanoseconds, list_request-timeout}
use bitcoin_controller.Cluster.{Cluster}
use bitcoin_controller.Controller.Recon.{recon_network, do_recon}
use bitcoin_controller.Program.Cached.{UsesLister, do_recon-reconciled}
use bitcoin_controller.Tests.Lab.{client, cluster, network, both_nodes, plain_meta, not_found}

-- An index is the list of what it holds, and a selector the name of a secret.
abbrev index : Indexer String
index = record {
  Store = List BitcoinNetwork;
  get_by_key = λ key s. ok (stored_option (find_key key s));
  list_all = λ secret s. (map stored_network (filter (λ n. n.spec.secret == secret) s), none);
  list_all_by_namespace = λ namespace secret s. (
    map stored_network (filter (λ n. n.meta.namespace == namespace && n.spec.secret == secret) s),
    none,
  );
  new_not_found = λ r name. not_found;
}

abbrev by_secret : String → BitcoinNetwork → Bool
by_secret secret n = n.spec.secret == secret

index-Holds : Holds index by_secret (network ∷ []) (network ∷ [])
index-Holds = record {
  finds = λ key. refl;
  lists = λ secret. refl;
  lists_namespace = λ namespace secret. refl;
}

lister-Holds_example :
    (namespace_get index "net" (in_namespace (new_bitcoin_network_lister (network ∷ [])) "default")
      ≡ some (
          found index by_secret
            (network ∷ [])
            (network ∷ [])
            index-Holds
            "net"
            (find_key ("default" <> "/" <> "net") (network ∷ []))))
    × (lister_list index "keys" (new_bitcoin_network_lister (network ∷ []))
        ≡ some (slice_of (filter (by_secret "keys") (network ∷ [])), none))
    × (namespace_list index "keys"
          (in_namespace (new_bitcoin_network_lister (network ∷ [])) "default")
        ≡ some (
          slice_of
              (filter (λ n. n.meta.namespace == "default" && by_secret "keys" n) (network ∷ [])),
          none,
        ))
lister-Holds_example =
    lister-Holds index by_secret (network ∷ []) (network ∷ []) index-Holds "default" "net" "keys"

abbrev heap : Heap
heap = [] ∷ both_nodes ∷ []

abbrev cached : NetworkRef
cached = record {
  type_meta = network.type_meta;
  meta = plain_meta "net";
  spec = network.spec;
  nodes = some 1;
}

abbrev cached_list : ListRef
cached_list = record {
  type_meta = network.type_meta;
  list_meta = record { resource_version = "7"; continue_token = "" };
  items = slice (cached ∷ cached ∷ []);
}

list_deep_copy_object-values_example :
    let copy = list_deep_copy_object (λ m. m) (some cached_list) heap in
    (o : RuntimeObject) × (copy.0 ≡ some o)
    × (object_at o copy.1 ≡ list_value (list_at cached_list heap))
    × All (λ n. IsNew n.nodes heap) (networks_of o)
    × (slice_at (some 1) copy.1 ≡ slice_at (some 1) heap)
list_deep_copy_object-values_example =
    list_deep_copy_object-values (λ m. m) (λ m. refl) cached_list (some 1) heap
      (omega arith, (omega arith, tt)) (omega arith)

-- More seconds than 64 bits have nanoseconds for, and fewer.
abbrev long_ago : ListOptions
long_ago = record {
  label_selector = "";
  field_selector = "";
  timeout_seconds = some (pos 9223372037);
  watch = true;
}

list_request-timeout_example :
    let sent = timeout_of (some (pos 9223372037)) in
    ((list_request {GetOptions = ℕ} {DeleteOptions = ℕ} "default" long_ago).timeout ≡ some sent)
    × ((delete_collection_request {GetOptions = ℕ} {DeleteOptions = ℕ} "default"
          (some 3)
          long_ago).timeout
        ≡ some sent)
    × IsInt64 sent
    × (residue sent ≡ residue (nanoseconds (some (pos 9223372037))))
    × (watch_request {GetOptions = ℕ} {DeleteOptions = ℕ} "default" long_ago
        ≡ list_request "default" (record long_ago { watch = true }))
list_request-timeout_example = list_request-timeout ℕ "default" long_ago (some 3)

-- The cluster that reads its networks from the index.
abbrev answer : Option BitcoinNetwork → Result BitcoinNetwork
answer none = err not_found
answer (some n) = ok n

abbrev cached_cluster : Cluster
cached_cluster = record cluster {
  get_network = λ ns name w. (answer (find_key (ns <> "/" <> name) (network ∷ [])), w);
}

uses_index : UsesLister cached_cluster index (λ w. network ∷ [])
unfolding namespace_get
uses_index = record { reads = λ ns name w. ground arith; leaves = λ ns name w. refl }

do_recon-reconciled_example :
    do_recon cached_cluster client "default/net" []
    ≡ recon_network cached_cluster client network "default" "net" []
do_recon-reconciled_example =
    do_recon-reconciled cached_cluster index client (λ w. network ∷ []) uses_index by_secret
      (network ∷ []) [] index-Holds "default/net" "default" "net" refl
