-- ===== src/Generated/Lister/Held.antt =====
-- The lister over an index that holds networks.
use bitcoin_controller.Base.{
  ◌≡◌, refl, ap, sym, append-nil, ◌∙◌, String, ◌<>◌, ◌==◌, Bool, ◌&&◌, List, [], ◌∷◌, ◌++◌,
  append_assoc, map, filter, Option, none, some, arith, if◌then◌else◌,
}
use bitcoin_controller.Apis.{nil_slice, slice, slice_of, BitcoinNetwork, resource}
use bitcoin_controller.Client.{Result, ok, err}
use bitcoin_controller.Generated.Lister.{
  Stored, stored_network, Indexer, append_networks, returned, new_bitcoin_network_lister,
  in_namespace, lister_list, namespace_list, namespace_get,
}

-- The key of a network in a cache.
abbrev pub key_of : BitcoinNetwork → String
key_of n = n.meta.namespace <> "/" <> n.meta.name

abbrev pub find_key : String → List BitcoinNetwork → Option BitcoinNetwork
find_key key [] = none
find_key key (n ∷ ns) = if key_of n == key then some n else find_key key ns

abbrev pub stored_option : Option BitcoinNetwork → Option Stored
stored_option none = none
stored_option (some n) = some (stored_network n)

-- What is documented of the index of a cache that holds these networks and nothing else: they are
-- found by their keys, and listed in some order, those that are selected.
pub record Holds {Selector : Type 0} (I : Indexer Selector)
    (matches : Selector → BitcoinNetwork → Bool) (s : I.Store) (ns : List BitcoinNetwork)
    : Type 0 where
  pub finds : (key : String) → I.get_by_key key s ≡ ok (stored_option (find_key key ns))
  pub lists :
      (selector : Selector)
      → I.list_all selector s ≡ (map stored_network (filter (matches selector) ns), none)
  pub lists_namespace :
      (namespace : String) (selector : Selector)
      → I.list_all_by_namespace namespace selector s ≡ (
        map stored_network (filter (λ n. n.meta.namespace == namespace && matches selector n) ns),
        none,
      )

append_networks-slice :
    (xs ns : List BitcoinNetwork)
    → append_networks (slice xs) (map stored_network ns) ≡ some (slice (xs ++ ns))
unfolding append_networks
append_networks-slice xs [] = ap (λ l. some (slice l)) (sym (append-nil xs))
append_networks-slice xs (n ∷ ns) =
    append_networks-slice (xs ++ n ∷ []) ns ∙ ap (λ l. some (slice l)) (append_assoc xs (n ∷ []) ns)

append_networks-nil :
    (ns : List BitcoinNetwork)
    → append_networks nil_slice (map stored_network ns) ≡ some (slice_of ns)
unfolding append_networks
append_networks-nil [] = refl
append_networks-nil (n ∷ ns) = append_networks-slice (n ∷ []) ns

module _ {Selector : Type 0} (I : Indexer Selector) (matches : Selector → BitcoinNetwork → Bool)
    (s : I.Store) (ns : List BitcoinNetwork) (holds : Holds I matches s ns) where
  -- The result of `Get`.
  abbrev pub found : String → Option BitcoinNetwork → Result BitcoinNetwork
  found name none = err (I.new_not_found (resource "bitcoinnetwork") name)
  found name (some n) = ok n

  pub namespace_get-found :
      (namespace name : String)
      → namespace_get I name (in_namespace (new_bitcoin_network_lister s) namespace)
        ≡ some (found name (find_key (namespace <> "/" <> name) ns))
  unfolding namespace_get
  namespace_get-found namespace name = by_entry (find_key (namespace <> "/" <> name) ns) refl
    where
      by_entry :
          (o : Option BitcoinNetwork)
          → find_key (namespace <> "/" <> name) ns ≡ o
          → namespace_get I name (in_namespace (new_bitcoin_network_lister s) namespace)
            ≡ some (found name o)
      by_entry none e = ground (arith, e, holds.finds (namespace <> "/" <> name))
      by_entry (some n) e = ground (arith, e, holds.finds (namespace <> "/" <> name))

  -- Over an index that holds networks and nothing else, the lister never panics and reports no error
  -- but a network that is not there: `Get` returns the first network with the key, and a "not found"
  -- error if there is none, and the two `List` return the selected networks, of the namespace if
  -- one is given, in the order of the index, and nil if there are none.
  pub lister-Holds :
      (namespace name : String) (selector : Selector)
      → (namespace_get I name (in_namespace (new_bitcoin_network_lister s) namespace)
          ≡ some (found name (find_key (namespace <> "/" <> name) ns)))
        × (lister_list I selector (new_bitcoin_network_lister s)
            ≡ some (slice_of (filter (matches selector) ns), none))
        × (namespace_list I selector (in_namespace (new_bitcoin_network_lister s) namespace)
            ≡ some (
              slice_of (filter (λ n. n.meta.namespace == namespace && matches selector n) ns),
              none,
            ))
  unfolding lister_list namespace_list returned
  lister-Holds namespace name selector = (
    namespace_get-found namespace name,
    rw (holds.lists selector, append_networks-nil (filter (matches selector) ns)) refl,
    rw
        (
          holds.lists_namespace namespace selector,
          append_networks-nil
              (filter (λ n. n.meta.namespace == namespace && matches selector n) ns),
        )
        refl,
  )
