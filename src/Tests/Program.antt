-- ===== src/Tests/Program.antt =====
-- The clients, the informers and the program at work.
use mathlib.Core.List.Perm
use bitcoin_controller.Base.{
  ◌≡◌, ◌≢◌, refl, ℕ, ℤ, pos, String, ◌==◌, true, List, [], ◌∷◌, contains, replicate, Option, none,
  some, if◌then◌else◌, ltb,
}
use bitcoin_controller.Kube.{GroupVersionResource}
use bitcoin_controller.Apis.{with_resource, resource}
use bitcoin_controller.Client.{Error, ok, err, AddedNode}
use bitcoin_controller.Effects.{Run, start_worker}
use bitcoin_controller.Generated.Clientset.{RestLibrary, ConfigOf, Clientset, new_for_config}
use bitcoin_controller.Generated.Clientset.OrDie.{Shares, new_for_config-Shares}
use bitcoin_controller.Generated.Lister.{new_bitcoin_network_lister}
use bitcoin_controller.Generated.Factory.{map_get}
use bitcoin_controller.Generated.Factory.Once.{EachOnce}
use bitcoin_controller.Generated.Informer.{
  NetworksClient, ListWatch, CacheLibrary, NetworkFactory, Scope, network_type, no_informer,
  informer, lister, for_resource,
}
use bitcoin_controller.Generated.Informer.Shared.{scope, for_resource-shared}
use bitcoin_controller.Program.{waits, Startup, resync, main}
use bitcoin_controller.Program.Endings.{main-waits}
use bitcoin_controller.Tests.Lab.{World, cluster, not_found}
use bitcoin_controller.Tests.Client.{http}

-- A rate is a number, a limiter as well, and a client the host that it speaks to.
abbrev rest : RestLibrary World
rest = record {
  Qps = ℕ;
  Limiter = ℕ;
  Serializer = String;
  Other = String;
  RestClient = String;
  DiscoveryClient = String;
  is_positive = λ q. ltb 0 q;
  new_token_bucket_rate_limiter = λ q burst w. (q, ("limiter", "new") ∷ w);
  rest_client_for = λ c. ok c.other;
  new_discovery_client_for_config = λ c. ok c.other;
  new_discovery_client_for_config_or_die = λ c. some c.other;
  new_discovery_client = λ c. c;
  default_kubernetes_user_agent = "agent";
  codecs = "codecs";
}

abbrev config : ConfigOf rest
config = record {
  group_version = none;
  api_path = "";
  negotiated_serializer = none;
  user_agent = "";
  qps = 5;
  burst = pos 10;
  rate_limiter = none;
  other = "localhost";
}

abbrev clients : Clientset rest
clients = record { discovery_client = "localhost"; bitcoincontroller_v1 = "localhost" }

makes_clients : (new_for_config rest config []).0 ≡ ok clients
unfolding new_for_config
makes_clients = refl

new_for_config-Shares_example : Shares rest config [] (new_for_config rest config []).1 clients
new_for_config-Shares_example = new_for_config-Shares rest config [] clients makes_clients

-- An informer is what it was made with, and a store the period of the informer.
abbrev caches : CacheLibrary World (Unit {0})
caches = record {
  Informer = ListWatch World (Unit {0}) × ℤ;
  Indexers = Unit {0};
  Store = ℤ;
  new_shared_index_informer = λ lw period indexers. (lw, period);
  get_indexer = λ i. i.1;
  namespace_indexers = tt;
}

abbrev networks_client : NetworksClient World (Unit {0})
networks_client = record { list = λ ns opts w. (err not_found, w); watch = λ ns opts w. (ok tt, w) }

-- A factory for one namespace that has been asked for another type before, and started.
abbrev factory : NetworkFactory caches
factory = record {
  client = networks_client;
  namespace = "default";
  tweak_list_options = some (λ opts. record opts { label_selector = "app=net" });
  default_resync = resync;
  custom_resync = (network_type, pos 30) ∷ [];
  informers =
      (
        "Pod",
        (
          record { list_func = networks_client.list ""; watch_func = networks_client.watch "" },
          pos 7,
        ),
      )
      ∷ [];
  started_informers = "Pod" ∷ [];
}

abbrev everywhere : Scope
everywhere = record { namespace = ""; tweak_list_options = none }

abbrev other_resource : GroupVersionResource
other_resource = with_resource "pods"

is_other : other_resource ≢ with_resource "bitcoinnetworks"
is_other e = cc

for_resource-shared_example :
    let first = informer caches (scope caches factory) factory in
    (first.0 ≡ (
      record {
        list_func = λ options.
            networks_client.list "default" (record options { label_selector = "app=net" });
        watch_func = λ options.
            networks_client.watch "default" (record options { label_selector = "app=net" });
      },
      pos 30,
    ))
    × (informer caches everywhere first.1 ≡ first)
    × (lister caches everywhere first.1
        ≡ (new_bitcoin_network_lister (caches.get_indexer first.0), first.1))
    × (for_resource caches (with_resource "bitcoinnetworks") first.1
        ≡ (ok (record { informer = first.0; resource = resource "bitcoinnetworks" }), first.1))
    × (for_resource caches other_resource factory ≡ (err (no_informer other_resource), factory))
unfolding map_get
for_resource-shared_example =
    for_resource-shared caches factory everywhere other_resource refl is_other

each_once : EachOnce (λ m. m)
each_once m = Perm.refl m

abbrev startup : Startup cluster (List AddedNode) (Unit {0})
startup = record {
  rest = rest;
  caches = caches;
  http = http;
  KubeClient = Unit {0};
  build_config_from_flags = λ path. if path == "missing" then err not_found else ok config;
  new_kube_client_for_config = λ c. ok tt;
  EventSink = Unit {0};
  event_sink_of = λ client. tt;
  start_recording_to_sink = λ sink w. w;
  start_kube_informers = λ client period w. w;
  networks_client = λ c. networks_client;
  scheme_error = none;
  has_synced = λ kind w. true;
  range_types = λ m. m;
}

main-waits_example :
    (started : List String) × (run : Run World (Option Error)) × (main startup "" []
      ≡ waits started run)
    × ((j : String) → contains started j ≡ (j == network_type))
    × (run.calls ≡ replicate 5 start_worker)
main-waits_example =
    main-waits startup "" config tt clients [] refl refl makes_clients refl each_once
