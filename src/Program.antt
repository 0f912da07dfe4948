-- ===== src/Program.antt =====
-- cmd/controller/main.go: the order in which the program is put together. The clients of Kubernetes and
-- what they give are parameters, and the argument of `main` is the flag.
pub mod Endings
pub mod Wired
pub mod Cached
pub mod Life
use bitcoin_controller.Base.{ℕ, ℤ, pos, String, Bool, List, [], Option, none, some}
use bitcoin_controller.Client.{Error, Result, ok, err}
use bitcoin_controller.Client.Impl.{Http}
use bitcoin_controller.Effects.{Run}
use bitcoin_controller.Cluster.{Cluster}
use bitcoin_controller.Controller.Queue.{run_controller}
use bitcoin_controller.Controller.Setup.{InformerKind, new_controller, add_event_sink}
use bitcoin_controller.Generated.Factory.{new_factory, start}
use bitcoin_controller.Generated.Clientset.{RestLibrary, ConfigOf, Clientset, new_for_config}
use bitcoin_controller.Generated.Informer.{
  NetworksClient, CacheLibrary, NetworkFactory, Scope, bitcoincontroller, v1, bitcoin_networks,
  informer, lister,
}

-- `time.Second*15`
abbrev pub resync : ℤ
resync = pos 15000000000

-- `time.Second*30`
abbrev pub kube_resync : ℤ
kube_resync = pos 30000000000

-- How `main` ends, or what it has done when it waits for the stop channel.
pub data Ending (W : Type 0) : Type 0 where
  -- `klog.Error`, and `os.Exit`
  exits : String → ℕ → Ending W
  panics : Ending W
  -- The types of the network informers that were started, and the run of the controller.
  waits : List String → Run W (Option Error) → Ending W

-- What `main` uses of client-go and of the libraries below the controller.
pub record Startup (K : Cluster) (Json Watch : Type 0) : Type 1 where
  pub rest : RestLibrary K.World
  pub caches : CacheLibrary K.World Watch
  pub http : Http K.World Json
  -- `clientcmd.BuildConfigFromFlags("", kubeconfig)` and `kubernetes.NewForConfig(config)`
  pub KubeClient : Type 0
  pub build_config_from_flags : String → Result (ConfigOf rest)
  pub new_kube_client_for_config : ConfigOf rest → Result KubeClient
  -- `EventSinkImpl` of the events of the client, and `StartRecordingToSink` of the broadcaster
  pub EventSink : Type 0
  pub event_sink_of : KubeClient → EventSink
  pub start_recording_to_sink : EventSink → K.World → K.World
  -- `Start` of the informer factory of client-go with this period, once the controller has asked for
  -- its informers.
  pub start_kube_informers : KubeClient → ℤ → K.World → K.World
  -- The typed client over a REST client.
  pub networks_client : rest.RestClient → NetworksClient K.World Watch
  -- What `AddToScheme` returns, and `HasSynced` of the informers.
  pub scheme_error : Option Error
  pub has_synced : InformerKind → K.World → Bool
  -- The order of the range over the informers in `Start`.
  pub range_types : List String → List String

module _ {K : Cluster} {Json Watch : Type 0} (S : Startup K Json Watch) where
  -- The calls of `Informer()` and `Lister()` in `NewController`.
  unfoldable pub ask_for_informers : NetworkFactory S.caches → NetworkFactory S.caches
  unfolding informer lister bitcoincontroller v1 bitcoin_networks
  ask_for_informers f =
      let i = bitcoin_networks S.caches (v1 S.caches (bitcoincontroller S.caches f)) in
      let f₁ = (informer S.caches i f).1 in
      let f₂ = (lister S.caches i f₁).1 in (informer S.caches i f₂).1

  -- From the informer factories on.
  unfoldable pub serve : S.KubeClient → Clientset S.rest → K.World → Ending K.World
  unfolding new_factory add_event_sink ask_for_informers new_controller start run_controller
  serve client clients w =
      let factory : NetworkFactory S.caches =
        new_factory (S.networks_client clients.bitcoincontroller_v1) resync in
      elim (new_controller K S.http S.scheme_error S.has_synced) [
        | none ↦ panics
        | some (controller, handlers) ↦
            let w₁ = add_event_sink S.start_recording_to_sink (S.event_sink_of client) w in
            waits (start S.range_types (ask_for_informers factory)).0
              (run_controller K controller.synced 5 (S.start_kube_informers client kube_resync w₁))
      ]

  unfoldable pub main : String → K.World → Ending K.World
  unfolding serve new_for_config
  main kubeconfig w = elim (S.build_config_from_flags kubeconfig) [
    | err e ↦ exits "Could not get config" 1
    | ok config ↦ elim (S.new_kube_client_for_config config) [
      | err e ↦ exits "Could not create K8s clientset" 1
      | ok client ↦
          let (made, w') = new_for_config S.rest config w in
          elim made [
            | err e ↦ exits "Could not create BitcoinNetwork clientset" 1
            | ok clients ↦ serve client clients w'
          ]
    ]
  ]
