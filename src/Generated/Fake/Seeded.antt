-- ===== src/Generated/Fake/Seeded.antt =====
-- What the client for unit tests finds of the objects that it is made with.
use bitcoin_controller.Base.{◌≡◌, ◌≢◌, String, ◌==◌, ◌&&◌, Option, none, some, if◌then◌else◌}
use bitcoin_controller.Kube.{GroupVersionResource}
use bitcoin_controller.Apis.{BitcoinNetwork, with_resource}
use bitcoin_controller.Client.{Error}
use bitcoin_controller.Generated.Fake.{get_action, RuntimeObject, network_object}
use bitcoin_controller.Generated.Fake.Simple.{FakeLibrary, simple_fake}
use bitcoin_controller.Generated.Fake.Tracked.{reply}

-- The resource that the scheme has for the type of networks.
abbrev pub registered : GroupVersionResource
registered = with_resource "bitcoinnetworks"

-- What is documented of the tracker: it gets an object under the resource that is asked for, and `Add`
-- puts a network under the resource that the scheme has for it, under its own namespace and name; if
-- there is one already, `Add` is an error that changes nothing. The errors name the object.
pub record TracksByResource {W Watch Label : Type 0} (L : FakeLibrary W Watch Label)
    (held : W → GroupVersionResource → String → String → Option BitcoinNetwork)
    (missing existing : GroupVersionResource → String → Error) : Type 0 where
  pub gets :
      (r : GroupVersionResource) (ns name : String) (d : RuntimeObject) (w : W)
      → (simple_fake L).invokes (get_action r ns name) d w
        ≡ (reply (missing r name) (held w r ns name), w)
  pub adds :
      (n : BitcoinNetwork) (w : W)
      → held w registered n.meta.namespace n.meta.name ≡ none
      → ((L.add (network_object n) w).0 ≡ none)
        × ((ns name : String)
            → held (L.add (network_object n) w).1 registered ns name ≡ (
                if ns == n.meta.namespace && name == n.meta.name
                then some n
                else held w registered ns name))
  pub adds_again :
      (n old : BitcoinNetwork) (w : W)
      → held w registered n.meta.namespace n.meta.name ≡ some old
      → L.add (network_object n) w ≡ (some (existing registered n.meta.name), w)
  pub adds_elsewhere :
      (n : BitcoinNetwork) (w : W) (r : GroupVersionResource) (ns name : String)
      → r ≢ registered
      → held (L.add (network_object n) w).1 r ns name ≡ held w r ns name
