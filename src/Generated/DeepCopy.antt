-- ===== src/Generated/DeepCopy.antt =====
-- internal/apis/bitcoincontroller/v1/deepcopy_generated.go, on a heap: a slice of nodes is nil or a
-- reference to an array, and the fields of `ObjectMeta` that are references are copied by the library.
pub mod Fresh
pub mod Items
pub mod Objects
use bitcoin_controller.Base.{
  ℕ, zero, suc, Bool, true, false, List, [], ◌∷◌, ◌++◌, map, length, Option, none, some, nat_eqb,
  if◌then◌else◌,
}
use bitcoin_controller.Kube.{TypeMeta, ListMeta, ObjectMeta}
use bitcoin_controller.Apis.{
  Slice, nil_slice, slice, BitcoinNetworkSpec, BitcoinNetworkNode, BitcoinNetwork,
  BitcoinNetworkList,
}

abbrev pub Array : Type 0
Array = List BitcoinNetworkNode

-- The arrays that have been made, the first one under 0.
abbrev pub Heap : Type 0
Heap = List Array

unfoldable pub array_at : ℕ → Heap → Array
array_at i [] = []
array_at zero (a ∷ h) = a
array_at (suc i) (a ∷ h) = array_at i h

-- An assignment to an array that there is.
unfoldable pub assign : ℕ → Array → Heap → Heap
assign i b [] = []
assign zero b (a ∷ h) = b ∷ h
assign (suc i) b (a ∷ h) = a ∷ assign i b h

-- `*BitcoinNetwork`, with the slice of the status as an option of a reference.
pub record NetworkRef : Type 0 where
  pub type_meta : TypeMeta
  pub meta : ObjectMeta
  pub spec : BitcoinNetworkSpec
  pub nodes : Option ℕ

-- `(*BitcoinNetworkStatus).DeepCopyInto`: `make`, and then `copy`.
unfoldable pub status_deep_copy_into : Option ℕ → Heap → Option ℕ × Heap
unfolding array_at
status_deep_copy_into none h = (none, h)
status_deep_copy_into (some i) h = (some (length h), h ++ array_at i h ∷ [])

-- `(*BitcoinNetworkNode).DeepCopyInto` and `(*BitcoinNetworkSpec).DeepCopyInto`: `*out = *in`
unfoldable pub node_deep_copy_into : BitcoinNetworkNode → BitcoinNetworkNode
node_deep_copy_into node = node

unfoldable pub spec_deep_copy_into : BitcoinNetworkSpec → BitcoinNetworkSpec
spec_deep_copy_into spec = spec

-- The methods `DeepCopy` of nodes, specifications and states, of nil too
unfoldable pub node_deep_copy : Option BitcoinNetworkNode → Option BitcoinNetworkNode
unfolding node_deep_copy_into
node_deep_copy none = none
node_deep_copy (some node) = some (node_deep_copy_into node)

unfoldable pub spec_deep_copy : Option BitcoinNetworkSpec → Option BitcoinNetworkSpec
unfolding spec_deep_copy_into
spec_deep_copy none = none
spec_deep_copy (some spec) = some (spec_deep_copy_into spec)

unfoldable pub status_deep_copy : Option (Option ℕ) → Heap → Option (Option ℕ) × Heap
unfolding status_deep_copy_into
status_deep_copy none h = (none, h)
status_deep_copy (some nodes) h = let (copy, h') = status_deep_copy_into nodes h in (some copy, h')

-- `*BitcoinNetworkList`, with the slice of its items
pub record ListRef : Type 0 where
  pub type_meta : TypeMeta
  pub list_meta : ListMeta
  pub items : Slice NetworkRef

-- A `runtime.Object`, which may be the nil interface.
pub data RuntimeObject : Type 0 where
  network_object : NetworkRef → RuntimeObject
  list_object : ListRef → RuntimeObject

module _ (copy_meta : ObjectMeta → ObjectMeta) where
  -- `(*BitcoinNetwork).DeepCopyInto`
  unfoldable pub network_deep_copy_into : NetworkRef → Heap → NetworkRef × Heap
  unfolding status_deep_copy_into
  network_deep_copy_into n h =
      let (nodes, h') = status_deep_copy_into n.nodes h in
      (record n { meta = copy_meta n.meta; nodes = nodes }, h')

  -- `(*BitcoinNetwork).DeepCopy`, of nil too
  unfoldable pub network_deep_copy : Option NetworkRef → Heap → Option NetworkRef × Heap
  unfolding network_deep_copy_into
  network_deep_copy none h = (none, h)
  network_deep_copy (some n) h = let (m, h') = network_deep_copy_into n h in (some m, h')

  -- The loop over the items in `(*BitcoinNetworkList).DeepCopyInto`
  unfoldable pub items_deep_copy_into : List NetworkRef → Heap → List NetworkRef × Heap
  unfolding network_deep_copy_into
  items_deep_copy_into [] h = ([], h)
  items_deep_copy_into (n ∷ ns) h =
      let (m, h') = network_deep_copy_into n h in
      let (ms, h'') = items_deep_copy_into ns h' in (m ∷ ms, h'')

  -- `(*BitcoinNetworkList).DeepCopyInto`
  unfoldable pub list_deep_copy_into : ListRef → Heap → ListRef × Heap
  unfolding items_deep_copy_into
  list_deep_copy_into l h = elim l.items [
    | nil_slice ↦ (l, h)
    | slice ns ↦ let (ms, h') = items_deep_copy_into ns h in (record l { items = slice ms }, h')
  ]

  unfoldable pub list_deep_copy : Option ListRef → Heap → Option ListRef × Heap
  unfolding list_deep_copy_into
  list_deep_copy none h = (none, h)
  list_deep_copy (some l) h = let (m, h') = list_deep_copy_into l h in (some m, h')

  -- The methods `DeepCopyObject`: `if c := in.DeepCopy(); c != nil`
  unfoldable pub network_deep_copy_object : Option NetworkRef → Heap → Option RuntimeObject × Heap
  unfolding network_deep_copy
  network_deep_copy_object n h =
      let (c, h') = network_deep_copy n h in
      elim c [ some m ↦ (some (network_object m), h') | none ↦ (none, h') ]

  unfoldable pub list_deep_copy_object : Option ListRef → Heap → Option RuntimeObject × Heap
  unfolding list_deep_copy
  list_deep_copy_object l h =
      let (c, h') = list_deep_copy l h in
      elim c [ some m ↦ (some (list_object m), h') | none ↦ (none, h') ]

-- The network that a reference stands for in a heap.
abbrev pub slice_at : Option ℕ → Heap → Slice BitcoinNetworkNode
slice_at none h = nil_slice
slice_at (some i) h = slice (array_at i h)

abbrev pub network_at : NetworkRef → Heap → BitcoinNetwork
network_at n h = record {
  type_meta = n.type_meta;
  meta = n.meta;
  spec = n.spec;
  status = record { nodes = slice_at n.nodes h };
}

-- The list that a reference stands for in a heap.
abbrev networks_at : Slice NetworkRef → Heap → Slice BitcoinNetwork
networks_at nil_slice h = nil_slice
networks_at (slice ns) h = slice (map (λ n. network_at n h) ns)

abbrev pub list_at : ListRef → Heap → BitcoinNetworkList
list_at l h = record {
  type_meta = l.type_meta;
  list_meta = l.list_meta;
  items = networks_at l.items h;
}

-- The value of an object in a heap.
pub data ObjectValue : Type 0 where
  network_value : BitcoinNetwork → ObjectValue
  list_value : BitcoinNetworkList → ObjectValue

abbrev pub object_at : RuntimeObject → Heap → ObjectValue
object_at (network_object n) h = network_value (network_at n h)
object_at (list_object l) h = list_value (list_at l h)
