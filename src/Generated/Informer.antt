-- ===== src/Generated/Informer.antt =====
-- internal/generated/informers/externalversions/bitcoincontroller/v1/bitcoinnetwork.go with the
-- interfaces of its group and version beside it, and internal/generated/informers/externalversions/generic.go:
-- the informer for networks. The package cache is a parameter.
pub mod Shared
use bitcoin_controller.Base.{String, ◌<>◌, ◌==◌, ℤ, Bool, ◌&&◌, Option, none, some, if◌then◌else◌}
use bitcoin_controller.Kube.{ListOptions, GroupVersionResource, GroupResource}
use bitcoin_controller.Apis.{BitcoinNetworkList, with_resource}
use bitcoin_controller.Client.{Error, foreign, Result, ok, err, Request}
use bitcoin_controller.Generated.Lister.{BitcoinNetworkLister, new_bitcoin_network_lister}
use bitcoin_controller.Generated.Factory.{Factory, informer_for}

-- The methods of a `versioned.Interface` that an informer uses: the namespace comes first.
pub record NetworksClient (W Watch : Type 0) : Type 0 where
  pub list : String → ListOptions → Request W BitcoinNetworkList
  pub watch : String → ListOptions → Request W Watch

-- `cache.ListWatch`
pub record ListWatch (W Watch : Type 0) : Type 0 where
  pub list_func : ListOptions → Request W BitcoinNetworkList
  pub watch_func : ListOptions → Request W Watch

-- `cache.NewSharedIndexInformer`, for the type of networks, `GetIndexer` and `cache.Indexers`.
pub record CacheLibrary (W Watch : Type 0) : Type 1 where
  pub Informer : Type 0
  pub Indexers : Type 0
  pub Store : Type 0
  pub new_shared_index_informer : ListWatch W Watch → ℤ → Indexers → Informer
  pub get_indexer : Informer → Store
  -- `cache.Indexers{cache.NamespaceIndex: cache.MetaNamespaceIndexFunc}`
  pub namespace_indexers : Indexers

-- `TweakListOptionsFunc` changes the options that it is given.
abbrev pub Tweak : Type 0
Tweak = ListOptions → ListOptions

-- `if tweakListOptions != nil { tweakListOptions(&options) }`
abbrev pub tweaked : Option Tweak → ListOptions → ListOptions
tweaked none options = options
tweaked (some tweak) options = tweak options

-- `reflect.TypeOf(&BitcoinNetwork{})`
abbrev pub network_type : String
network_type = "*v1.BitcoinNetwork"

-- `group` and `version`, and `bitcoinNetworkInformer`, without the factory.
pub record Scope : Type 0 where
  pub namespace : String
  pub tweak_list_options : Option Tweak

-- `fmt.Errorf("no informer found for %v", resource)`, with the text of a resource.
abbrev pub no_informer : GroupVersionResource → Error
no_informer r =
    foreign "fmt.Errorf"
      ("no informer found for " <> r.group <> "/" <> r.version <> ", Resource=" <> r.resource)

abbrev resource_eqb : GroupVersionResource → GroupVersionResource → Bool
resource_eqb a b = a.group == b.group && (a.version == b.version && a.resource == b.resource)

module _ {W Watch : Type 0} (L : CacheLibrary W Watch) where
  abbrev pub NetworkFactory : Type 0
  NetworkFactory = Factory (NetworksClient W Watch) Tweak L.Informer

  unfoldable pub new_filtered_bitcoin_network_informer :
      NetworksClient W Watch → String → ℤ → L.Indexers → Option Tweak → L.Informer
  new_filtered_bitcoin_network_informer client namespace resync_period indexers tweak =
      L.new_shared_index_informer
        (record {
          list_func = λ options. client.list namespace (tweaked tweak options);
          watch_func = λ options. client.watch namespace (tweaked tweak options);
        })
        resync_period indexers

  unfoldable pub new_bitcoin_network_informer :
      NetworksClient W Watch → String → ℤ → L.Indexers → L.Informer
  unfolding new_filtered_bitcoin_network_informer
  new_bitcoin_network_informer client namespace resync_period indexers =
      new_filtered_bitcoin_network_informer client namespace resync_period indexers none

  -- `f.Bitcoincontroller()`, `.V1()` and `.BitcoinNetworks()`
  unfoldable pub bitcoincontroller : NetworkFactory → Scope
  bitcoincontroller f = record {
    namespace = f.namespace;
    tweak_list_options = f.tweak_list_options;
  }

  unfoldable pub v1 : Scope → Scope
  v1 g = record { namespace = g.namespace; tweak_list_options = g.tweak_list_options }

  unfoldable pub bitcoin_networks : Scope → Scope
  bitcoin_networks v = record { namespace = v.namespace; tweak_list_options = v.tweak_list_options }

  unfoldable pub default_informer : Scope → NetworksClient W Watch → ℤ → L.Informer
  unfolding new_filtered_bitcoin_network_informer
  default_informer i client resync_period =
      new_filtered_bitcoin_network_informer client i.namespace resync_period L.namespace_indexers
        i.tweak_list_options

  -- `Informer()`, of the informer of a scope, with the factory.
  unfoldable pub informer : Scope → NetworkFactory → L.Informer × NetworkFactory
  unfolding informer_for default_informer
  informer i f = informer_for network_type (default_informer i) f

  -- `Lister()`
  unfoldable pub lister : Scope → NetworkFactory → BitcoinNetworkLister L.Store × NetworkFactory
  unfolding informer
  lister i f =
      let (made, f') = informer i f in (new_bitcoin_network_lister (L.get_indexer made), f')

  -- `genericInformer`
  pub record GenericInformer : Type 0 where
    pub informer : L.Informer
    pub resource : GroupResource

  -- `Lister()` of a generic informer: its index and its resource.
  unfoldable pub generic_lister : GenericInformer → L.Store × GroupResource
  generic_lister g = (L.get_indexer g.informer, g.resource)

  unfoldable pub for_resource :
      GroupVersionResource → NetworkFactory → Result GenericInformer × NetworkFactory
  unfolding informer bitcoincontroller v1 bitcoin_networks
  for_resource r f =
      let (made, f') = informer (bitcoin_networks (v1 (bitcoincontroller f))) f in
      if resource_eqb r (with_resource "bitcoinnetworks")
      then (
        ok (record {
          informer = made;
          resource = record { group = r.group; resource = r.resource };
        }),
        f',
      )
      else (err (no_informer r), f)
