-- ===== src/Generated/Informer/Shared.antt =====
-- The informer for networks of a factory, however one comes by it.
use bitcoin_controller.Base.{◌≡◌, ◌≢◌, String, ◌==◌, eq_iff, true, ◌||◌, ◌↔◌, contains, none, arith}
use bitcoin_controller.Kube.{GroupVersionResource}
use bitcoin_controller.Apis.{with_resource, resource}
use bitcoin_controller.Client.{ok, err}
use bitcoin_controller.Generated.Lister.{new_bitcoin_network_lister}
use bitcoin_controller.Generated.Factory.{map_get, types, resync_of}
use bitcoin_controller.Generated.Factory.Once.{
  informer_for-again, informer_for-new, informer_for-types, informer_for-started,
}
use bitcoin_controller.Generated.Informer.{
  CacheLibrary, NetworkFactory, Scope, tweaked, network_type, no_informer, resource_eqb,
  new_filtered_bitcoin_network_informer, bitcoincontroller, v1, bitcoin_networks, default_informer,
  informer, lister, for_resource,
}

resource_eqb_iff : (a b : GroupVersionResource) → (resource_eqb a b ≡ true) ↔ (a ≡ b)
resource_eqb_iff a b =
    ground (arith, eq_iff a.group b.group, eq_iff a.version b.version, eq_iff a.resource b.resource)

module _ {W Watch : Type 0} (L : CacheLibrary W Watch) (f : NetworkFactory L) where
  -- `f.Bitcoincontroller().V1().BitcoinNetworks()`
  abbrev pub scope : Scope
  scope = bitcoin_networks L (v1 L (bitcoincontroller L f))

  informer-again : (i : Scope) → informer L i (informer L scope f).1 ≡ informer L scope f
  unfolding informer
  informer-again i =
      informer_for-again f network_type (default_informer L scope) (default_informer L i)

  pub informer-types :
      (i : Scope) (j : String)
      → contains (types (informer L i f).1) j ≡ (j == network_type || contains (types f) j)
  unfolding informer
  informer-types i j = informer_for-types f network_type (default_informer L i) j

  pub informer-started : (i : Scope) → (informer L i f).1.started_informers ≡ f.started_informers
  unfolding informer
  informer-started i = informer_for-started f network_type (default_informer L i)

  informer-made :
      map_get network_type f.informers ≡ none
      → (informer L scope f).0
        ≡ L.new_shared_index_informer
            (record {
              list_func =
                  λ options. f.client.list f.namespace (tweaked f.tweak_list_options options);
              watch_func =
                  λ options. f.client.watch f.namespace (tweaked f.tweak_list_options options);
            })
            (resync_of (map_get network_type f.custom_resync) f.default_resync)
            L.namespace_indexers
  unfolding informer default_informer new_filtered_bitcoin_network_informer bitcoincontroller v1
      bitcoin_networks
  informer-made e = informer_for-new f network_type (default_informer L scope) e

  -- On a factory that has no informer for networks, `Informer()` makes one that lists and watches the
  -- networks in the namespace of the factory with the options as its tweak changes them, with the
  -- resync period of the type or the default one. From then on every informer of networks, the lister
  -- and `ForResource` for networks come to that same informer, and leave the factory as it is.
  -- `ForResource` for any other resource is an error, and leaves the factory as it is.
  pub for_resource-shared :
      (i : Scope) (r : GroupVersionResource)
      → map_get network_type f.informers ≡ none
      → r ≢ with_resource "bitcoinnetworks"
      → let first = informer L scope f in
        (first.0
          ≡ L.new_shared_index_informer
              (record {
                list_func =
                    λ options. f.client.list f.namespace (tweaked f.tweak_list_options options);
                watch_func =
                    λ options. f.client.watch f.namespace (tweaked f.tweak_list_options options);
              })
              (resync_of (map_get network_type f.custom_resync) f.default_resync)
              L.namespace_indexers)
        × (informer L i first.1 ≡ first)
        × (lister L i first.1 ≡ (new_bitcoin_network_lister (L.get_indexer first.0), first.1))
        × (for_resource L (with_resource "bitcoinnetworks") first.1
            ≡ (ok (record { informer = first.0; resource = resource "bitcoinnetworks" }), first.1))
        × (for_resource L r f ≡ (err (no_informer r), f))
  unfolding lister for_resource
  for_resource-shared i r e ne =
      let first = informer L scope f in
      let later = bitcoin_networks L (v1 L (bitcoincontroller L first.1)) in
      (
        informer-made e,
        informer-again i,
        ground (arith, informer-again i),
        ground (arith, informer-again later),
        ground (arith, resource_eqb_iff r (with_resource "bitcoinnetworks"), ne),
      )
