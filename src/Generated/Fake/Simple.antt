-- ===== src/Generated/Fake/Simple.antt =====
-- internal/generated/clientset/versioned/fake/clientset_generated.go: the client set for unit tests.
-- The reactions of client-go/testing and the tracker, whose objects are in the world, are a parameter.
use bitcoin_controller.Base.{String, Bool, true, false, List, [], ◌∷◌, Option, none, some}
use bitcoin_controller.Kube.{ListOptions, GroupVersionResource, Labels}
use bitcoin_controller.Client.{Error, Result, ok, err}
use bitcoin_controller.Generated.Fake.{
  Action, get_action, list_action, watch_action, create_action, update_action,
  update_subresource_action, delete_action, delete_collection_action, patch_subresource_action,
  RuntimeObject, Fake,
}

-- `action.GetResource()` and `action.GetNamespace()`
abbrev pub resource_of : Action → GroupVersionResource
resource_of (get_action r ns name) = r
resource_of (list_action r k ns opts) = r
resource_of (watch_action r ns opts) = r
resource_of (create_action r ns n) = r
resource_of (update_action r ns n) = r
resource_of (update_subresource_action r sub ns n) = r
resource_of (delete_action r ns name) = r
resource_of (delete_collection_action r ns opts) = r
resource_of (patch_subresource_action r ns name type data_bytes subs) = r

abbrev pub namespace_of : Action → String
namespace_of (get_action r ns name) = ns
namespace_of (list_action r k ns opts) = ns
namespace_of (watch_action r ns opts) = ns
namespace_of (create_action r ns n) = ns
namespace_of (update_action r ns n) = ns
namespace_of (update_subresource_action r sub ns n) = ns
namespace_of (delete_action r ns name) = ns
namespace_of (delete_collection_action r ns opts) = ns
namespace_of (patch_subresource_action r ns name type data_bytes subs) = ns

-- Whether the action is handled, what is returned, and the error.
abbrev pub Reaction : Type 0 → Type 0 → Type 0
Reaction W A = Action → W → (Bool × Option A × Option Error) × W

-- A reactor with its verb and its resource, and a watch reactor with its resource.
pub record Reactors (W Watch : Type 0) : Type 0 where
  pub reaction_chain : List (String × String × Reaction W RuntimeObject)
  pub watch_reaction_chain : List (String × Reaction W Watch)

pub record FakeLibrary (W Watch Label : Type 0) : Type 0 where
  -- `Fake.Invokes` and `Fake.InvokesWatch`, with the reactors that have been added
  pub invokes :
      Reactors W Watch → Action → RuntimeObject → W → (Option RuntimeObject × Option Error) × W
  pub invokes_watch : Reactors W Watch → Action → W → (Option Watch × Option Error) × W
  -- `ObjectReaction(o)`, and `Add` and `Watch` of the tracker
  pub object_reaction : Reaction W RuntimeObject
  pub add : RuntimeObject → W → Option Error × W
  pub tracker_watch : GroupVersionResource → String → W → Result Watch × W
  pub extract_label : ListOptions → Option Label
  pub everything : Label
  pub matches : Label → Labels → Bool

module _ {W Watch Label : Type 0} (L : FakeLibrary W Watch Label) where
  -- The loop over the objects; `none` is a panic.
  unfoldable pub add_all : List RuntimeObject → W → Option W
  add_all [] w = some w
  add_all (obj ∷ objects) w =
      let (e, w') = L.add obj w in
      let rest = add_all objects w' in elim e [ some x ↦ none | none ↦ rest ]

  -- The watch reactor.
  unfoldable pub watch_reaction : Reaction W Watch
  watch_reaction action w =
      let (reply, w') = L.tracker_watch (resource_of action) (namespace_of action) w in
      elim reply [ err e ↦ ((false, none, some e), w') | ok watch ↦ ((true, some watch, none), w') ]

  -- `AddReactor` and `AddWatchReactor`
  unfoldable pub reactors : Reactors W Watch
  unfolding watch_reaction
  reactors = record {
    reaction_chain = ("*", "*", L.object_reaction) ∷ [];
    watch_reaction_chain = ("*", watch_reaction) ∷ [];
  }

  -- The `Fake` of the client set.
  unfoldable pub simple_fake : Fake W Watch Label
  unfolding reactors
  simple_fake = record {
    invokes = L.invokes reactors;
    invokes_watch = L.invokes_watch reactors;
    extract_label = L.extract_label;
    everything = L.everything;
    matches = L.matches;
  }

  unfoldable pub new_simple_clientset : List RuntimeObject → W → Option (Fake W Watch Label × W)
  unfolding add_all simple_fake
  new_simple_clientset objects w = elim (add_all objects w) [
    | none ↦ none
    | some w' ↦ some (simple_fake, w')
  ]
