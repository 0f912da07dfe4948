-- ===== src/Tests/Fakes.antt =====
-- The client for unit tests over a tracker that is a function.
use bitcoin_controller.Base.{
  ◌≡◌, refl, String, ◌<>◌, ◌==◌, Bool, true, ◌&&◌, [], ◌∷◌, Option, none, some, arith,
  if◌then◌else◌,
}
use bitcoin_controller.Kube.{GroupVersionResource}
use bitcoin_controller.Apis.{slice, BitcoinNetwork, BitcoinNetworkList}
use bitcoin_controller.Client.{Error, err}
use bitcoin_controller.Generated.Fake.{
  Action, get_action, list_action, watch_action, create_action, update_action,
  update_subresource_action, delete_action, delete_collection_action, patch_subresource_action,
  RuntimeObject, network_object, list_object, other_object, Fake, bitcoinnetworks_resource,
  fake_get, fake_create, fake_delete,
}
use bitcoin_controller.Generated.Fake.Simple.{FakeLibrary}
use bitcoin_controller.Generated.Fake.Tracked.{reply, Tracks, fake_create-got}
use bitcoin_controller.Generated.Fake.Seeded.{registered}
use bitcoin_controller.Tests.Lab.{network, settled_network, not_found}

abbrev pub Tracker : Type 0
Tracker = GroupVersionResource → String → String → Option BitcoinNetwork

abbrev same : GroupVersionResource → GroupVersionResource → Bool
same a b = a.group == b.group && (a.version == b.version && a.resource == b.resource)

abbrev put : GroupVersionResource → String → BitcoinNetwork → Tracker → Tracker
put r ns n w q ms name =
    if same q r && (ms == ns && name == n.meta.name) then some n else w q ms name

abbrev drop : GroupVersionResource → String → String → Tracker → Tracker
drop r ns other w q ms name = if same q r && (ms == ns && name == other) then none else w q ms name

abbrev existing : String → Error
existing name = Error.foreign "AlreadyExists" (name <> " already exists")

abbrev missing : String → Error
missing name = Error.foreign "NotFound" (name <> " not found")

abbrev both : BitcoinNetworkList
both = record {
  type_meta = network.type_meta;
  list_meta = record { resource_version = "7"; continue_token = "" };
  items = slice (network ∷ settled_network ∷ []);
}

abbrev updated :
    GroupVersionResource
    → String
    → BitcoinNetwork
    → Option BitcoinNetwork
    → Tracker
    → (Option RuntimeObject × Option Error) × Tracker
updated r ns n none w = ((none, some (missing n.meta.name)), w)
updated r ns n (some old) w = ((some (network_object n), none), put r ns n w)

abbrev created :
    GroupVersionResource
    → String
    → BitcoinNetwork
    → Option BitcoinNetwork
    → Tracker
    → (Option RuntimeObject × Option Error) × Tracker
created r ns n none w = ((some (network_object n), none), put r ns n w)
created r ns n (some old) w = ((none, some (existing n.meta.name)), w)

abbrev run : Action → RuntimeObject → Tracker → (Option RuntimeObject × Option Error) × Tracker
run (get_action r ns name) d w = (reply (missing name) (w r ns name), w)
run (list_action r k ns opts) d w = ((some (list_object both), none), w)
run (watch_action r ns opts) d w = ((some d, none), w)
run (create_action r ns n) d w = created r ns n (w r ns n.meta.name) w
run (update_action r ns n) d w = updated r ns n (w r ns n.meta.name) w
run (update_subresource_action r sub ns n) d w = updated r ns n (w r ns n.meta.name) w
run (delete_action r ns name) d w = ((some d, none), drop r ns name w)
run (delete_collection_action r ns opts) d w = ((some d, none), w)
run (patch_subresource_action r ns name type data_bytes subs) d w = ((some d, none), w)

abbrev added : BitcoinNetwork → Option BitcoinNetwork → Tracker → Option Error × Tracker
added n none w = (none, put registered n.meta.namespace n w)
added n (some old) w = (some (existing n.meta.name), w)

abbrev tracked : RuntimeObject → Tracker → Option Error × Tracker
tracked (network_object n) w = added n (w registered n.meta.namespace n.meta.name) w
tracked (list_object l) w = (none, w)
tracked (other_object what) w = (some not_found, w)

-- No options have a label selector.
abbrev library : FakeLibrary Tracker (Unit {0}) (Option String)
library = record {
  invokes = λ reactors. run;
  invokes_watch = λ reactors action w. ((some tt, none), w);
  object_reaction =
      λ action w. let ((obj, e), w') = run action (other_object "") w in ((true, obj, e), w');
  add = tracked;
  tracker_watch = λ r ns w. (err not_found, w);
  extract_label = λ opts. none;
  everything = none;
  matches = λ label labels. true;
}

abbrev fake : Fake Tracker (Unit {0}) (Option String)
fake = record {
  invokes = run;
  invokes_watch = λ action w. ((some tt, none), w);
  extract_label = λ opts. none;
  everything = none;
  matches = λ label labels. true;
}

fake-Tracks : Tracks fake (λ w. w bitcoinnetworks_resource) missing existing
fake-Tracks = record {
  gets = λ ns name d w. refl;
  creates = λ ns n d w own h. (ground (arith, h), λ ms name. ground (arith, h));
  creates_again = λ ns n old d w own h. ground (arith, h);
  updates = λ ns n old d w own h. (ground (arith, h), λ ms name. ground (arith, h));
  updates_status = λ ns n d w. refl;
  updates_missing = λ ns n d w own h. ground (arith, h);
  deletes = λ ns name old d w h. (refl, λ ms other. refl);
}

abbrev nothing : Tracker
nothing r ns name = none

fake_create-got_example :
    let created = fake_create fake "default" network nothing in
    let deleted = fake_delete fake "default" "net" created.1 in
    (created.0 ≡ some (some network, none))
    × ((fake_get fake "default" "net" created.1).0 ≡ some (some network, none))
    × (fake_create fake "default" network created.1
        ≡ (some (none, some (existing "net")), created.1))
    × (deleted.0 ≡ none)
    × ((fake_get fake "default" "net" deleted.1).0 ≡ (fake_get fake "default" "net" nothing).0)
fake_create-got_example =
    fake_create-got fake fake-Tracks "default" network nothing "default" "net" refl refl

abbrev second_network : BitcoinNetwork
second_network = record network { meta = record (network.meta) { name = "second" } }

abbrev seeded : Tracker
seeded = put registered "default" second_network (put registered "default" network nothing)
