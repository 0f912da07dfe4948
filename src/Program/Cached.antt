-- ===== src/Program/Cached.antt =====
-- `doRecon` over the generated lister.
use bitcoin_controller.Base.{
  ◌≡◌, refl, sym, true, ◌∙◌, ℕ, String, ◌<>◌, Bool, List, Option, some, none, arith,
}
use mathlib.Core.Option.{some-injective}
use bitcoin_controller.Apis.{BitcoinNetwork}
use bitcoin_controller.Client.{ok, BitcoinClient}
use bitcoin_controller.Cluster.{Cluster}
use bitcoin_controller.Effects.{Exec, pure}
use bitcoin_controller.Controller.Recon.{recon_network, do_recon}
use bitcoin_controller.Generated.Lister.{
  Indexer, new_bitcoin_network_lister, in_namespace, namespace_get,
}
use bitcoin_controller.Generated.Lister.Held.{find_key, Holds, found, namespace_get-found}

module _ (K : Cluster) {Selector : Type 0} (I : Indexer Selector) where
  -- The lister of the controller is the generated one, over the index of the cache.
  pub record UsesLister (index : K.World → I.Store) : Type 0 where
    pub reads :
        (namespace name : String) (w : K.World)
        → namespace_get I name (in_namespace (new_bitcoin_network_lister (index w)) namespace)
          ≡ some (K.get_network namespace name w).0
    pub leaves : (namespace name : String) (w : K.World) → (K.get_network namespace name w).1 ≡ w

  module _ {Json : Type 0} (R : BitcoinClient K.World Json) where
    -- What is to be done for a network: nothing if it is not there or being deleted.
    abbrev unless_deleted : Option ℕ → Exec K.World Bool → Exec K.World Bool
    unless_deleted none run = run
    unless_deleted (some t) run = pure true

    abbrev pub reconciled : String → String → Option BitcoinNetwork → Exec K.World Bool
    reconciled namespace name none = pure true
    reconciled namespace name (some n) =
        unless_deleted n.meta.deletion_timestamp (recon_network K R n namespace name)

    module _ (index : K.World → I.Store) (U : UsesLister index)
        (matches : Selector → BitcoinNetwork → Bool) (networks : List BitcoinNetwork) (w : K.World)
        (holds : Holds I matches (index w) networks) where
      get_network-found :
          (namespace name : String)
          → K.get_network namespace name w ≡ (
            found I matches
                (index w)
                networks
                holds
                name
                (find_key (namespace <> "/" <> name) networks),
            w,
          )
      get_network-found namespace name =
          let same = some-injective _ _ (
            sym (U.reads namespace name w)
            ∙ namespace_get-found I matches (index w) networks holds namespace name) in
          ground (arith, same, U.leaves namespace name w)

      -- If the controller reads its cache by the generated lister, over an index that holds some
      -- networks and nothing else: `doRecon` does for a key that splits what is to be done for the
      -- first of the networks with that namespace and name, in the same world. It reconciles that
      -- network, and returns true without a call if there is none or it is being deleted.
      pub do_recon-reconciled :
          (key namespace name : String)
          → K.split_key key ≡ ok (namespace, name)
          → do_recon K R key w
            ≡ reconciled namespace name (find_key (namespace <> "/" <> name) networks) w
      unfolding do_recon
      do_recon-reconciled key namespace name e =
          by_entry (find_key (namespace <> "/" <> name) networks) refl
        where
          by_deletion :
              (n : BitcoinNetwork)
              → find_key (namespace <> "/" <> name) networks ≡ some n
              → (t : Option ℕ) → n.meta.deletion_timestamp ≡ t
              → do_recon K R key w ≡ unless_deleted t (recon_network K R n namespace name) w
          by_deletion n f none g = ground (arith, e, f, g, get_network-found namespace name)
          by_deletion n f (some t) g = ground (arith, e, f, g, get_network-found namespace name)

          by_entry :
              (o : Option BitcoinNetwork)
              → find_key (namespace <> "/" <> name) networks ≡ o
              → do_recon K R key w ≡ reconciled namespace name o w
          by_entry none f = ground (arith, e, f, get_network-found namespace name)
          by_entry (some n) f = by_deletion n f n.meta.deletion_timestamp refl
