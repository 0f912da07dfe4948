-- ===== src/Apis.antt =====
-- internal/apis/bitcoincontroller/v1/types.go and register.go: the custom resource.
use bitcoin_controller.Base.{
  ℕ, ℤ, pos, negsuc, ◌-◌, ◌%◌, String, Bool, true, false, ◌&&◌, ◌≡◌, ◌↔◌, List, [], ◌∷◌, ◌++◌,
  arith, ltb, ℤ_eqb, ℤ_eqb_iff, ◌==◌, eq_iff, if◌then◌else◌,
}
use bitcoin_controller.Kube.{
  TypeMeta, ObjectMeta, GroupVersion, GroupVersionKind, GroupVersionResource, GroupKind,
  GroupResource, ListMeta,
}

-- A Go slice. A nil slice and an empty one differ for `reflect.DeepEqual`.
pub data Slice {ℓ} (A : Type ℓ) : Type ℓ where
  nil_slice : Slice A
  slice : List A → Slice A

module _ {ℓ} {A : Type ℓ} where
  -- What `range` goes through.
  abbrev pub elements : Slice A → List A
  elements nil_slice = []
  elements (slice xs) = xs

  -- `append(s, x)`
  abbrev pub append : Slice A → A → Slice A
  append nil_slice x = slice (x ∷ [])
  append (slice xs) x = slice (xs ++ x ∷ [])

  -- What is left of a nil slice to which these are appended.
  abbrev pub slice_of : List A → Slice A
  slice_of [] = nil_slice
  slice_of (x ∷ xs) = slice (x ∷ xs)

pub record BitcoinNetworkSpec : Type 0 where
  pub nodes : ℤ
  pub secret : String

pub record BitcoinNetworkNode : Type 0 where
  pub ordinal : ℤ
  pub ready : Bool
  pub ip : String
  pub node_name : String
  pub dns_name : String

pub record BitcoinNetworkStatus : Type 0 where
  pub nodes : Slice BitcoinNetworkNode

pub record BitcoinNetwork : Type 0 where
  pub type_meta : TypeMeta
  pub meta : ObjectMeta
  pub spec : BitcoinNetworkSpec
  pub status : BitcoinNetworkStatus

pub record BitcoinNetworkList : Type 0 where
  pub type_meta : TypeMeta
  pub list_meta : ListMeta
  pub items : Slice BitcoinNetwork

-- `bitcoincontroller.GroupName`
abbrev pub group_name : String
group_name = "bitcoincontroller.christianb93.github.com"

-- `SchemeGroupVersion`
abbrev pub scheme_group_version : GroupVersion
scheme_group_version = record { group = group_name; version = "v1" }

-- `SchemeGroupVersion.WithKind(kind)`
abbrev pub with_kind : String → GroupVersionKind
with_kind kind = record {
  group = scheme_group_version.group;
  version = scheme_group_version.version;
  kind = kind;
}

-- `SchemeGroupVersion.WithResource(resource)`
abbrev pub with_resource : String → GroupVersionResource
with_resource resource = record {
  group = scheme_group_version.group;
  version = scheme_group_version.version;
  resource = resource;
}

-- `Kind(kind)` and `Resource(resource)`
abbrev pub kind : String → GroupKind
kind k = record { group = (with_kind k).group; kind = (with_kind k).kind }

abbrev pub resource : String → GroupResource
resource r = record { group = (with_resource r).group; resource = (with_resource r).resource }

-- The conversion `int32(i)` of a number that is not negative: it wraps.
unfoldable pub int32 : ℕ → ℤ
int32 n = let m = n % 4294967296 in if ltb m 2147483648 then pos m else negsuc (4294967295 - m)

bool_eqb : Bool → Bool → Bool
bool_eqb true b = b
bool_eqb false true = false
bool_eqb false false = true

-- `reflect.DeepEqual` on two nodes, field by field.
node_eqb : BitcoinNetworkNode → BitcoinNetworkNode → Bool
unfolding bool_eqb
node_eqb a b =
    ℤ_eqb a.ordinal b.ordinal
    && (bool_eqb a.ready b.ready
        && (a.ip == b.ip && (a.node_name == b.node_name && a.dns_name == b.dns_name)))

nodes_eqb : List BitcoinNetworkNode → List BitcoinNetworkNode → Bool
unfolding node_eqb
nodes_eqb [] [] = true
nodes_eqb [] (b ∷ bs) = false
nodes_eqb (a ∷ xs) [] = false
nodes_eqb (a ∷ xs) (b ∷ bs) = node_eqb a b && nodes_eqb xs bs

-- `reflect.DeepEqual` on two node lists.
unfoldable pub deep_equal : Slice BitcoinNetworkNode → Slice BitcoinNetworkNode → Bool
unfolding nodes_eqb
deep_equal nil_slice nil_slice = true
deep_equal nil_slice (slice bs) = false
deep_equal (slice xs) nil_slice = false
deep_equal (slice xs) (slice bs) = nodes_eqb xs bs

node_eqb_iff : (a b : BitcoinNetworkNode) → (node_eqb a b ≡ true) ↔ (a ≡ b)
unfolding node_eqb
node_eqb_iff a b = ground (
  arith,
  ℤ_eqb_iff a.ordinal b.ordinal,
  eq_iff a.ip b.ip,
  eq_iff a.node_name b.node_name,
  eq_iff a.dns_name b.dns_name,
)

nodes_eqb_iff : (xs ys : List BitcoinNetworkNode) → (nodes_eqb xs ys ≡ true) ↔ (xs ≡ ys)
unfolding nodes_eqb
nodes_eqb_iff [] [] = ground arith
nodes_eqb_iff [] (b ∷ bs) = ground arith
nodes_eqb_iff (a ∷ xs) [] = ground arith
nodes_eqb_iff (a ∷ xs) (b ∷ bs) = ground (arith, node_eqb_iff a b, nodes_eqb_iff xs bs)

pub deep_equal_iff : (s t : Slice BitcoinNetworkNode) → (deep_equal s t ≡ true) ↔ (s ≡ t)
unfolding deep_equal
deep_equal_iff nil_slice nil_slice = ground arith
deep_equal_iff nil_slice (slice bs) = ground arith
deep_equal_iff (slice xs) nil_slice = ground arith
deep_equal_iff (slice xs) (slice bs) = ground (arith, nodes_eqb_iff xs bs)
