-- ===== src/Tests/Generated.antt =====
-- The informer factory and a deep copy at work.
use mathlib.Core.List.Perm
use bitcoin_controller.Base.{
  ◌≡◌, refl, ℕ, ℤ, pos, String, true, [], ◌∷◌, map, contains, some, arith,
}
use bitcoin_controller.Generated.Factory.{
  Factory, new_factory_with_options, with_namespace, types, start, wait_for_cache_sync,
}
use bitcoin_controller.Generated.Factory.Once.{start-once}
use bitcoin_controller.Generated.DeepCopy.{
  Heap, NetworkRef, assign, network_at, network_deep_copy_into,
}
use bitcoin_controller.Generated.DeepCopy.Fresh.{network_deep_copy_into-fresh}
use bitcoin_controller.Generated.Rest.{Method, update_network_status}
use bitcoin_controller.Generated.Rest.Sent.{request_of-inj}
use bitcoin_controller.Tests.Lab.{network, plain_meta, both_nodes}

-- A client is a number, and an informer knows its client and its period.
abbrev fresh : Factory ℕ String (ℕ × ℤ)
fresh = new_factory_with_options 7 (pos 30) (with_namespace "default" ∷ [])

abbrev asked : Factory ℕ String (ℕ × ℤ)
asked = record fresh { informers = ("Pod", (7, pos 30)) ∷ ("Service", (7, pos 60)) ∷ [] }

start-once_example :
    ((start (λ m. m) (start (λ m. m) asked).1).0 ≡ [])
    × (contains
          (map (λ e. e.0) (wait_for_cache_sync (λ m. m) (λ type. true) (start (λ m. m) asked).1))
          "Pod"
        ≡ contains (types asked) "Pod")
start-once_example =
    start-once asked (λ m. m) (λ m. Perm.refl m) (λ m. m) (λ m. Perm.refl m) (λ type. true) "Pod"

abbrev heap : Heap
heap = [] ∷ both_nodes ∷ []

abbrev cached : NetworkRef
cached = record {
  type_meta = network.type_meta;
  meta = plain_meta "net";
  spec = network.spec;
  nodes = some 1;
}

network_deep_copy_into-fresh_example :
    let copy = network_deep_copy_into (λ m. m) cached heap in
    (network_at copy.0 copy.1 ≡ network_at cached heap)
    × (network_at copy.0 (assign 1 [] copy.1) ≡ network_at cached heap)
    × (network_at cached (assign 2 [] copy.1) ≡ network_at cached heap)
network_deep_copy_into-fresh_example =
    network_deep_copy_into-fresh (λ m. m) (λ m. refl) cached cached heap 1 [] (omega arith)
      (omega arith) (omega arith)

abbrev stored : Method ℕ ℕ
stored = update_network_status network

request_of-inj_example : (network.meta.namespace ≡ "default") × (stored ≡ stored)
request_of-inj_example = request_of-inj network.meta.namespace "default" stored stored refl
