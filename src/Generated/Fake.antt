-- ===== src/Generated/Fake.antt =====
-- internal/generated/clientset/versioned/typed/bitcoincontroller/v1/fake/fake_bitcoinnetwork.go and
-- internal/generated/clientset/versioned/fake/clientset_generated.go: the client for unit tests. What it
-- uses of client-go/testing, with the tracker of the objects in the world, is a parameter. Arguments
-- that a method does not use are left out.
pub mod Tracked
pub mod Simple
pub mod Seeded
use bitcoin_controller.Base.{
  String, ℤ, Bool, true, false, List, [], ◌∷◌, Option, none, some, pos, if◌then◌else◌,
}
use bitcoin_controller.Kube.{
  TypeMeta, ObjectMeta, ListMeta, ListOptions, GroupVersionKind, GroupVersionResource, Labels,
}
use bitcoin_controller.Apis.{Slice, nil_slice, append, elements, BitcoinNetwork, BitcoinNetworkList}
use bitcoin_controller.Client.{Error, Result, ok, err}

-- `testing.Action`, as the constructors of that package make them.
pub data Action : Type 0 where
  get_action : GroupVersionResource → String → String → Action
  list_action : GroupVersionResource → GroupVersionKind → String → ListOptions → Action
  watch_action : GroupVersionResource → String → ListOptions → Action
  create_action : GroupVersionResource → String → BitcoinNetwork → Action
  update_action : GroupVersionResource → String → BitcoinNetwork → Action
  update_subresource_action : GroupVersionResource → String → String → BitcoinNetwork → Action
  delete_action : GroupVersionResource → String → String → Action
  delete_collection_action : GroupVersionResource → String → ListOptions → Action
  patch_subresource_action :
      GroupVersionResource → String → String → String → String → List String → Action

-- A `runtime.Object`.
pub data RuntimeObject : Type 0 where
  network_object : BitcoinNetwork → RuntimeObject
  list_object : BitcoinNetworkList → RuntimeObject
  other_object : String → RuntimeObject

-- `testing.Fake`, as the client embeds it, and the label selectors.
pub record Fake (W Watch Label : Type 0) : Type 0 where
  -- An object, which may be nil, and an error, which may be nil.
  pub invokes : Action → RuntimeObject → W → (Option RuntimeObject × Option Error) × W
  pub invokes_watch : Action → W → (Option Watch × Option Error) × W
  pub extract_label : ListOptions → Option Label
  pub everything : Label
  pub matches : Label → Labels → Bool

abbrev pub bitcoinnetworks_resource : GroupVersionResource
bitcoinnetworks_resource = record {
  group = "bitcoincontroller";
  version = "v1";
  resource = "bitcoinnetworks";
}

abbrev pub bitcoinnetworks_kind : GroupVersionKind
bitcoinnetworks_kind = record {
  group = "bitcoincontroller";
  version = "v1";
  kind = "BitcoinNetwork";
}

-- `BitcoinNetwork{}` and `BitcoinNetworkList{}`
abbrev pub empty_type_meta : TypeMeta
empty_type_meta = record { kind = ""; api_version = "" }

abbrev pub empty_network : BitcoinNetwork
empty_network = record {
  type_meta = empty_type_meta;
  meta = record {
    name = "";
    namespace = "";
    uid = "";
    labels = [];
    owner_references = [];
    deletion_timestamp = none;
  };
  spec = record { nodes = pos 0; secret = "" };
  status = record { nodes = nil_slice };
}

abbrev pub empty_list : BitcoinNetworkList
empty_list = record {
  type_meta = empty_type_meta;
  list_meta = record { resource_version = ""; continue_token = "" };
  items = nil_slice;
}

-- A pointer and an error. The outer `none` is a panic.
abbrev pub Returned : Type 0 → Type 0
Returned A = Option (Option A × Option Error)

-- `if obj == nil { return nil, err }; return obj.(*BitcoinNetwork), err`
unfoldable pub as_network : Option RuntimeObject → Option Error → Returned BitcoinNetwork
as_network none e = some (none, e)
as_network (some (network_object n)) e = some (some n, e)
as_network (some (list_object l)) e = none
as_network (some (other_object what)) e = none

module _ {W Watch Label : Type 0} (F : Fake W Watch Label) where
  -- `c.Fake.Invokes(action, &BitcoinNetwork{})` and what follows it.
  abbrev invoke : Action → W → Returned BitcoinNetwork × W
  invoke action w =
      let ((obj, e), w') = F.invokes action (network_object empty_network) w in
      (as_network obj e, w')

  unfoldable pub fake_get : String → String → W → Returned BitcoinNetwork × W
  unfolding as_network
  fake_get ns name = invoke (get_action bitcoinnetworks_resource ns name)

  unfoldable pub fake_create : String → BitcoinNetwork → W → Returned BitcoinNetwork × W
  unfolding as_network
  fake_create ns network = invoke (create_action bitcoinnetworks_resource ns network)

  unfoldable pub fake_update : String → BitcoinNetwork → W → Returned BitcoinNetwork × W
  unfolding as_network
  fake_update ns network = invoke (update_action bitcoinnetworks_resource ns network)

  unfoldable pub fake_update_status : String → BitcoinNetwork → W → Returned BitcoinNetwork × W
  unfolding as_network
  fake_update_status ns network =
      invoke (update_subresource_action bitcoinnetworks_resource "status" ns network)

  unfoldable pub fake_patch :
      String → String → String → String → List String → W → Returned BitcoinNetwork × W
  unfolding as_network
  fake_patch ns name type data_bytes subresources =
      invoke
        (patch_subresource_action bitcoinnetworks_resource ns name type data_bytes subresources)

  unfoldable pub fake_delete : String → String → W → Option Error × W
  fake_delete ns name w =
      let ((obj, e), w') =
        F.invokes (delete_action bitcoinnetworks_resource ns name) (network_object empty_network)
          w in
      (e, w')

  unfoldable pub fake_delete_collection : String → ListOptions → W → Option Error × W
  fake_delete_collection ns list_options w =
      let ((obj, e), w') =
        F.invokes (delete_collection_action bitcoinnetworks_resource ns list_options)
          (list_object empty_list) w in
      (e, w')

  unfoldable pub fake_watch : String → ListOptions → W → (Option Watch × Option Error) × W
  fake_watch ns opts = F.invokes_watch (watch_action bitcoinnetworks_resource ns opts)

  -- `if label == nil { label = labels.Everything() }`
  abbrev pub label_of : ListOptions → Label
  label_of opts = elim (F.extract_label opts) [ none ↦ F.everything | some label ↦ label ]

  -- The loop over the items, with those appended so far.
  unfoldable pub matching :
      Label → Slice BitcoinNetwork → List BitcoinNetwork → Slice BitcoinNetwork
  matching label items [] = items
  matching label items (n ∷ ns) =
      matching label (if F.matches label n.meta.labels then append items n else items) ns

  unfoldable pub as_list :
      ListOptions → Option RuntimeObject → Option Error → Returned BitcoinNetworkList
  unfolding matching
  as_list opts none e = some (none, e)
  as_list opts (some (list_object l)) e = some (
    some (record {
      type_meta = empty_type_meta;
      list_meta = l.list_meta;
      items = matching (label_of opts) nil_slice (elements l.items);
    }),
    e,
  )
  as_list opts (some (network_object n)) e = none
  as_list opts (some (other_object what)) e = none

  unfoldable pub fake_list : String → ListOptions → W → Returned BitcoinNetworkList × W
  unfolding as_list
  fake_list ns opts w =
      let ((obj, e), w') =
        F.invokes (list_action bitcoinnetworks_resource bitcoinnetworks_kind ns opts)
          (list_object empty_list) w in
      (as_list opts obj e, w')
