-- ===== src/Generated/Lister.antt =====
-- internal/generated/listers/bitcoincontroller/v1/bitcoinnetwork.go: the lister, over the index of a
-- cache, which is a parameter.
pub mod Held
use bitcoin_controller.Base.{String, ◌<>◌, List, [], ◌∷◌, Option, none, some}
use bitcoin_controller.Kube.{GroupResource}
use bitcoin_controller.Apis.{Slice, nil_slice, append, BitcoinNetwork, resource}
use bitcoin_controller.Client.{Error, Result, ok, err}

-- What an index holds: a `*BitcoinNetwork`, or something else.
pub data Stored : Type 0 where
  stored_network : BitcoinNetwork → Stored
  stored_other : String → Stored

-- `cache.Indexer` with `cache.ListAll` and `cache.ListAllByNamespace`: a listing is what is handed to
-- the function that appends, in order, and the error afterwards.
pub record Indexer (Selector : Type 0) : Type 1 where
  pub Store : Type 0
  pub get_by_key : String → Store → Result (Option Stored)
  pub list_all : Selector → Store → List Stored × Option Error
  pub list_all_by_namespace : String → Selector → Store → List Stored × Option Error
  -- `errors.NewNotFound`
  pub new_not_found : GroupResource → String → Error

-- `func(m interface{}) { ret = append(ret, m.(*v1.BitcoinNetwork)) }`, on each. `none` is the panic of the
-- conversion.
append_networks : Slice BitcoinNetwork → List Stored → Option (Slice BitcoinNetwork)
append_networks ret [] = some ret
append_networks ret (stored_network n ∷ ms) = append_networks (append ret n) ms
append_networks ret (stored_other what ∷ ms) = none

-- `return ret, err`
returned :
    Option Error → Option (Slice BitcoinNetwork) → Option (Slice BitcoinNetwork × Option Error)
returned e none = none
returned e (some ret) = some (ret, e)

-- `bitcoinNetworkLister`, and `bitcoinNetworkNamespaceLister`
pub record BitcoinNetworkLister (Store : Type 0) : Type 0 where
  pub indexer : Store

pub record BitcoinNetworkNamespaceLister (Store : Type 0) : Type 0 where
  pub indexer : Store
  pub namespace : String

module _ {Store : Type 0} where
  abbrev pub new_bitcoin_network_lister : Store → BitcoinNetworkLister Store
  new_bitcoin_network_lister indexer = record { indexer = indexer }

  -- `BitcoinNetworks(namespace)`
  abbrev pub in_namespace :
      BitcoinNetworkLister Store → String → BitcoinNetworkNamespaceLister Store
  in_namespace s namespace = record { indexer = s.indexer; namespace = namespace }

module _ {Selector : Type 0} (I : Indexer Selector) where
  unfoldable pub lister_list :
      Selector → BitcoinNetworkLister I.Store → Option (Slice BitcoinNetwork × Option Error)
  unfolding append_networks returned
  lister_list selector s =
      let (listed, e) = I.list_all selector s.indexer in
      returned e (append_networks nil_slice listed)

  unfoldable pub namespace_list :
      Selector
      → BitcoinNetworkNamespaceLister I.Store
      → Option (Slice BitcoinNetwork × Option Error)
  unfolding append_networks returned
  namespace_list selector s =
      let (listed, e) = I.list_all_by_namespace s.namespace selector s.indexer in
      returned e (append_networks nil_slice listed)

  -- `none` is a panic.
  unfoldable pub namespace_get :
      String → BitcoinNetworkNamespaceLister I.Store → Option (Result BitcoinNetwork)
  namespace_get name s = elim (I.get_by_key (s.namespace <> "/" <> name) s.indexer) [
    | err e ↦ some (err e)
    | ok none ↦ some (err (I.new_not_found (resource "bitcoinnetwork") name))
    | ok (some (stored_network n)) ↦ some (ok n)
    | ok (some (stored_other what)) ↦ none
  ]
