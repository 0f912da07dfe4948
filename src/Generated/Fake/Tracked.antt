-- ===== src/Generated/Fake/Tracked.antt =====
-- The client for unit tests over a tracker of objects.
use bitcoin_controller.Base.{
  ◌≡◌, refl, sym, ap, ◌∙◌, String, ◌==◌, eq_iff, Bool, true, false, ◌&&◌, List, [], ◌∷◌, ◌++◌,
  append-nil, append_assoc, filter, Option, none, some, arith, if◌then◌else◌, Bool-cases, inl, inr,
}
use bitcoin_controller.Kube.{ListOptions}
use bitcoin_controller.Apis.{
  nil_slice, slice, slice_of, elements, BitcoinNetwork, BitcoinNetworkList,
}
use bitcoin_controller.Client.{Error}
use bitcoin_controller.Generated.Fake.{
  get_action, list_action, create_action, update_action, update_subresource_action, delete_action,
  RuntimeObject, network_object, list_object, Fake, bitcoinnetworks_resource, bitcoinnetworks_kind,
  empty_type_meta, empty_network, empty_list, Returned, as_network, as_list, label_of, matching,
  fake_get, fake_create, fake_update, fake_update_status, fake_delete, fake_list,
}

-- What an action on an object returns.
abbrev pub reply : Error → Option BitcoinNetwork → Option RuntimeObject × Option Error
reply missing none = (none, some missing)
reply missing (some n) = (some (network_object n), none)

abbrev pub is_some : {A : Type 0} → Option A → Bool
is_some none = false
is_some (some a) = true

-- What is documented of a tracker: it keeps objects under their namespace and name, and takes an object
-- only in a request for its own namespace. `has` are the networks that are tracked for the resource of
-- the client, and the errors name the object.
pub record Tracks {W Watch Label : Type 0} (F : Fake W Watch Label)
    (has : W → String → String → Option BitcoinNetwork) (missing existing : String → Error)
    : Type 0 where
  pub gets :
      (ns name : String) (d : RuntimeObject) (w : W)
      → F.invokes (get_action bitcoinnetworks_resource ns name) d w
        ≡ (reply (missing name) (has w ns name), w)
  pub creates :
      (ns : String) (n : BitcoinNetwork) (d : RuntimeObject) (w : W)
      → n.meta.namespace ≡ ns
      → has w ns n.meta.name ≡ none
      → ((F.invokes (create_action bitcoinnetworks_resource ns n) d w).0
          ≡ (some (network_object n), none))
        × ((ms name : String)
            → has (F.invokes (create_action bitcoinnetworks_resource ns n) d w).1 ms name
              ≡ (if ms == ns && name == n.meta.name then some n else has w ms name))
  pub creates_again :
      (ns : String) (n old : BitcoinNetwork) (d : RuntimeObject) (w : W)
      → n.meta.namespace ≡ ns
      → has w ns n.meta.name ≡ some old
      → F.invokes (create_action bitcoinnetworks_resource ns n) d w
        ≡ ((none, some (existing n.meta.name)), w)
  pub updates :
      (ns : String) (n old : BitcoinNetwork) (d : RuntimeObject) (w : W)
      → n.meta.namespace ≡ ns
      → has w ns n.meta.name ≡ some old
      → ((F.invokes (update_action bitcoinnetworks_resource ns n) d w).0
          ≡ (some (network_object n), none))
        × ((ms name : String)
            → has (F.invokes (update_action bitcoinnetworks_resource ns n) d w).1 ms name
              ≡ (if ms == ns && name == n.meta.name then some n else has w ms name))
  -- The tracker takes the update of a subresource for one of the object.
  pub updates_status :
      (ns : String) (n : BitcoinNetwork) (d : RuntimeObject) (w : W)
      → F.invokes (update_subresource_action bitcoinnetworks_resource "status" ns n) d w
        ≡ F.invokes (update_action bitcoinnetworks_resource ns n) d w
  pub updates_missing :
      (ns : String) (n : BitcoinNetwork) (d : RuntimeObject) (w : W)
      → n.meta.namespace ≡ ns
      → has w ns n.meta.name ≡ none
      → F.invokes (update_action bitcoinnetworks_resource ns n) d w
        ≡ ((none, some (missing n.meta.name)), w)
  pub deletes :
      (ns name : String) (old : BitcoinNetwork) (d : RuntimeObject) (w : W)
      → has w ns name ≡ some old
      → ((F.invokes (delete_action bitcoinnetworks_resource ns name) d w).0.1 ≡ none)
        × ((ms other : String)
            → has (F.invokes (delete_action bitcoinnetworks_resource ns name) d w).1 ms other
              ≡ (if ms == ns && other == name then none else has w ms other))

-- The result of `Get` for what is tracked.
abbrev pub got : Error → Option BitcoinNetwork → Returned BitcoinNetwork
got missing none = some (none, some missing)
got missing (some n) = some (some n, none)

module _ {W Watch Label : Type 0} (F : Fake W Watch Label) where
  module _ {has : W → String → String → Option BitcoinNetwork} {missing existing : String → Error}
      (T : Tracks F has missing existing) where
    fake_get-got :
        (ns name : String) (w : W) → fake_get F ns name w ≡ (got (missing name) (has w ns name), w)
    unfolding fake_get as_network
    fake_get-got ns name w = by_entry (has w ns name) refl
      where
        by_entry :
            (o : Option BitcoinNetwork)
            → has w ns name ≡ o
            → fake_get F ns name w ≡ (got (missing name) o, w)
        by_entry none e = ground (arith, T.gets ns name (network_object empty_network) w, e)
        by_entry (some n) e = ground (arith, T.gets ns name (network_object empty_network) w, e)

    -- A network that is not there, created in the fake client in its own namespace, is returned, and got afterwards; to
    -- create it once more is an error, which changes nothing; when it has been deleted it is not
    -- found; all others are got as before.
    pub fake_create-got :
        (ns : String) (n : BitcoinNetwork) (w : W) (ms name : String)
        → n.meta.namespace ≡ ns
        → has w ns n.meta.name ≡ none
        → let created = fake_create F ns n w in
          let deleted = fake_delete F ns n.meta.name created.1 in
          (created.0 ≡ some (some n, none))
          × ((fake_get F ms name created.1).0 ≡ (
              if ms == ns && name == n.meta.name
              then some (some n, none)
              else (fake_get F ms name w).0))
          × (fake_create F ns n created.1 ≡ (some (none, some (existing n.meta.name)), created.1))
          × (deleted.0 ≡ none)
          × ((fake_get F ms name deleted.1).0 ≡ (fake_get F ms name w).0)
    unfolding fake_create as_network fake_delete
    fake_create-got ns n w ms name own h =
        let d = network_object empty_network in
        let first = T.creates ns n d w own h in
        let w₁ = (F.invokes (create_action bitcoinnetworks_resource ns n) d w).1 in
        let here : has w₁ ns n.meta.name ≡ some n =
          ground (arith, first.1 ns n.meta.name, eq_iff ns ns, eq_iff n.meta.name n.meta.name) in
        let again = T.creates_again ns n n d w₁ own here in
        let second = T.deletes ns n.meta.name n d w₁ here in
        let w₂ = (F.invokes (delete_action bitcoinnetworks_resource ns n.meta.name) d w₁).1 in
        (
          ground (arith, first.0),
          ground (arith, fake_get-got ms name w₁, fake_get-got ms name w, first.1 ms name),
          ground (arith, first.0, again),
          ground (arith, second.0),
          ground (
            arith,
            fake_get-got ms name w₂,
            fake_get-got ms name w,
            second.1 ms name,
            first.1 ms name,
            eq_iff ms ns,
            eq_iff name n.meta.name,
          ),
        )

    -- An update in the fake client, of a network or of its status: one that is there is replaced by
    -- what is sent, which is returned, and got afterwards in place of the old one, with all others
    -- as before; one that is not there is an error, which changes nothing.
    fake_update-got :
        (ns : String) (n : BitcoinNetwork) (w : W) (ms name : String)
        → n.meta.namespace ≡ ns
        → let updated = fake_update F ns n w in
          (fake_update_status F ns n w ≡ updated)
          × (updated.0 ≡ (
              if is_some (has w ns n.meta.name)
              then some (some n, none)
              else some (none, some (missing n.meta.name))))
          × ((fake_get F ms name updated.1).0 ≡ (
              if is_some (has w ns n.meta.name) && (ms == ns && name == n.meta.name)
              then some (some n, none)
              else (fake_get F ms name w).0))
    unfolding fake_update fake_update_status as_network
    fake_update-got ns n w ms name own = by_entry (has w ns n.meta.name) refl
      where
        d : RuntimeObject
        d = network_object empty_network

        w₁ : W
        w₁ = (F.invokes (update_action bitcoinnetworks_resource ns n) d w).1

        by_entry :
            (o : Option BitcoinNetwork)
            → has w ns n.meta.name ≡ o
            → (fake_update_status F ns n w ≡ fake_update F ns n w)
              × ((fake_update F ns n w).0 ≡ (
                  if is_some o
                  then some (some n, none)
                  else some (none, some (missing n.meta.name))))
              × ((fake_get F ms name w₁).0 ≡ (
                  if is_some o && (ms == ns && name == n.meta.name)
                  then some (some n, none)
                  else (fake_get F ms name w).0))
        by_entry none e =
            let same = T.updates_status ns n d w in
            let missed = T.updates_missing ns n d w own e in
            (ground (arith, same), ground (arith, missed), ground (arith, missed))
        by_entry (some old) e =
            let same = T.updates_status ns n d w in
            let done = T.updates ns n old d w own e in
            (
              ground (arith, same),
              ground (arith, done.0),
              ground (arith, fake_get-got ms name w₁, fake_get-got ms name w, done.1 ms name),
            )

  matching-slice :
      (label : Label) (xs ns : List BitcoinNetwork)
      → matching F label (slice xs) ns
        ≡ slice (xs ++ filter (λ n. F.matches label n.meta.labels) ns)
  unfolding matching
  matching-slice label xs [] = ap slice (sym (append-nil xs))
  matching-slice label xs (n ∷ ns) = elim (Bool-cases (F.matches label n.meta.labels)) [
    | inl e ↦ rw e (
        matching-slice label (xs ++ n ∷ []) ns
        ∙ ap slice (append_assoc xs (n ∷ []) (filter (λ n. F.matches label n.meta.labels) ns)))
    | inr e ↦ rw e (matching-slice label xs ns)
  ]

  matching-nil :
      (label : Label) (ns : List BitcoinNetwork)
      → matching F label nil_slice ns ≡ slice_of (filter (λ n. F.matches label n.meta.labels) ns)
  unfolding matching
  matching-nil label [] = refl
  matching-nil label (n ∷ ns) = elim (Bool-cases (F.matches label n.meta.labels)) [
    | inl e ↦ rw e (matching-slice label (n ∷ []) ns)
    | inr e ↦ rw e (matching-nil label ns)
  ]

  -- `List` of the fake client returns, of the list that the tracker returns, the networks whose labels
  -- match the selector of the options, or all that match the selector for everything if the options
  -- have none, in order, with the metadata of the list, and nil if there are none; an error of the
  -- tracker is returned beside it.
  fake_list-matches :
      (ns : String) (opts : ListOptions) (w : W) (l : BitcoinNetworkList) (e : Option Error)
      → let action = list_action bitcoinnetworks_resource bitcoinnetworks_kind ns opts in
        (F.invokes action (list_object empty_list) w).0 ≡ (some (list_object l), e)
        → (fake_list F ns opts w).0
          ≡ some (
            some (record {
              type_meta = empty_type_meta;
              list_meta = l.list_meta;
              items =
                  slice_of
                    (filter (λ n. F.matches (label_of F opts) n.meta.labels) (elements l.items));
            }),
            e,
          )
  unfolding fake_list as_list
  fake_list-matches ns opts w l e h =
      ground (arith, h, matching-nil (label_of F opts) (elements l.items))
