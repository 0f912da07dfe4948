-- ===== src/Program/Endings.antt =====
-- How `main` ends.
use bitcoin_controller.Base.{
  ℕ, ◌≡◌, refl, String, ◌==◌, Bool, ◌||◌, List, [], ◌∷◌, contains, replicate, Option, none, some,
  arith, if◌then◌else◌,
}
use bitcoin_controller.Client.{Error, Result, ok, err}
use bitcoin_controller.Effects.{Run, start_worker}
use bitcoin_controller.Cluster.{Cluster}
use bitcoin_controller.Controller.Queue.{run_controller, Synced}
use bitcoin_controller.Controller.Setup
use bitcoin_controller.Controller.Setup.{
  Controller, InformerKind, HandlerFuncs, new_controller, add_event_sink,
}
use bitcoin_controller.Generated.Factory.{new_factory, start, types}
use bitcoin_controller.Generated.Factory.Once.{EachOnce}
use bitcoin_controller.Generated.Clientset.{ConfigOf, Clientset, new_for_config}
use bitcoin_controller.Generated.Informer.{
  NetworkFactory, network_type, Scope, bitcoincontroller, v1, bitcoin_networks, informer, lister,
}
use bitcoin_controller.Generated.Informer.Shared.{informer-types, informer-started}
use bitcoin_controller.Generated.Factory.Once.{start-runs}
use bitcoin_controller.Controller.Queue.Workers.{run_controller-workers}
use bitcoin_controller.Program.{
  exits, waits, Startup, resync, kube_resync, ask_for_informers, serve, main,
}

module _ {K : Cluster} {Json Watch : Type 0} (S : Startup K Json Watch) where
  -- What stopped `main` before the controller was made, with the message that is logged.
  pub data Cause (kubeconfig : String) (w : K.World) (message : String) : Type 0 where
    no_config :
        (e : Error)
        → S.build_config_from_flags kubeconfig ≡ err e
        → message ≡ "Could not get config"
        → Cause kubeconfig w message
    no_kube_client :
        (config : ConfigOf S.rest) (e : Error)
        → S.build_config_from_flags kubeconfig ≡ ok config
        → S.new_kube_client_for_config config ≡ err e
        → message ≡ "Could not create K8s clientset"
        → Cause kubeconfig w message
    no_network_client :
        (config : ConfigOf S.rest) (client : S.KubeClient) (e : Error)
        → S.build_config_from_flags kubeconfig ≡ ok config
        → S.new_kube_client_for_config config ≡ ok client
        → (new_for_config S.rest config w).0 ≡ err e
        → message ≡ "Could not create BitcoinNetwork clientset"
        → Cause kubeconfig w message

  serve-exits :
      (client : S.KubeClient) (clients : Clientset S.rest) (w : K.World) (message : String)
      (code : ℕ)
      → serve S client clients w ≡ exits message code
      → ⊥
  unfolding serve
  serve-exits client clients w message code e =
      by_controller (new_controller K S.http S.scheme_error S.has_synced) refl
    where
      by_controller :
          (o : Option (Controller K.World Json × List (InformerKind × HandlerFuncs K.World)))
          → new_controller K S.http S.scheme_error S.has_synced ≡ o
          → ⊥
      by_controller none f = ground (arith, e, f)
      by_controller (some (c, hs)) f = ground (arith, e, f)

  -- If `main` exits, its code is 1, and one of the three calls that it depends on has failed, those
  -- before it have not, and the message that it logs is about that call.
  main-Cause :
      (kubeconfig : String) (w : K.World) (message : String) (code : ℕ)
      → main S kubeconfig w ≡ exits message code
      → (code ≡ 1) × Cause kubeconfig w message
  unfolding main
  main-Cause kubeconfig w message code h = by_config (S.build_config_from_flags kubeconfig) refl
    where
      by_clients :
          (config : ConfigOf S.rest)
          → S.build_config_from_flags kubeconfig ≡ ok config
          → (client : S.KubeClient) → S.new_kube_client_for_config config ≡ ok client
          → (r : Result (Clientset S.rest)) → (new_for_config S.rest config w).0 ≡ r
          → (code ≡ 1) × Cause kubeconfig w message
      by_clients config e client f (err x) g = (
        ground (arith, h, e, f, g),
        no_network_client config client x e f g (ground (arith, h, e, f, g)),
      )
      by_clients config e client f (ok clients) g = absurd (
          serve-exits client clients (new_for_config S.rest config w).1 message code
            (ground (arith, h, e, f, g)))

      by_kube :
          (config : ConfigOf S.rest)
          → S.build_config_from_flags kubeconfig ≡ ok config
          → (r : Result S.KubeClient) → S.new_kube_client_for_config config ≡ r
          → (code ≡ 1) × Cause kubeconfig w message
      by_kube config e (err x) f =
          (ground (arith, h, e, f), no_kube_client config x e f (ground (arith, h, e, f)))
      by_kube config e (ok client) f =
          by_clients config e client f (new_for_config S.rest config w).0 refl

      by_config :
          (r : Result (ConfigOf S.rest))
          → S.build_config_from_flags kubeconfig ≡ r
          → (code ≡ 1) × Cause kubeconfig w message
      by_config (err x) e = (ground (arith, h, e), no_config x e (ground (arith, h, e)))
      by_config (ok config) e = by_kube config e (S.new_kube_client_for_config config) refl

  ask_for_informers-types :
      (f : NetworkFactory S.caches) (j : String)
      → contains (types (ask_for_informers S f)) j ≡ (j == network_type || contains (types f) j)
  unfolding ask_for_informers lister bitcoincontroller v1 bitcoin_networks
  ask_for_informers-types f j =
      let i : Scope = record {
        namespace = f.namespace;
        tweak_list_options = f.tweak_list_options;
      } in
      let f₁ = (informer S.caches i f).1 in
      let f₂ = (informer S.caches i f₁).1 in
      ground (
        arith,
        informer-types S.caches f₂ i j,
        informer-types S.caches f₁ i j,
        informer-types S.caches f i j,
      )

  ask_for_informers-started :
      (f : NetworkFactory S.caches)
      → (ask_for_informers S f).started_informers ≡ f.started_informers
  unfolding ask_for_informers lister bitcoincontroller v1 bitcoin_networks
  ask_for_informers-started f =
      let i : Scope = record {
        namespace = f.namespace;
        tweak_list_options = f.tweak_list_options;
      } in
      let f₁ = (informer S.caches i f).1 in
      let f₂ = (informer S.caches i f₁).1 in
      ground (
        arith,
        informer-started S.caches f₂ i,
        informer-started S.caches f₁ i,
        informer-started S.caches f i,
      )

  -- The caches that the controller waits for.
  abbrev pub awaited : List (K.World → Bool)
  awaited =
      S.has_synced Setup.bitcoin_networks
      ∷ S.has_synced Setup.stateful_sets
      ∷ S.has_synced Setup.services
      ∷ S.has_synced Setup.pods
      ∷ []

  -- The world when the events are recorded and the informers of client-go have been started.
  abbrev pub prepared : S.KubeClient → K.World → K.World
  prepared client w =
      S.start_kube_informers client kube_resync
        (S.start_recording_to_sink (S.event_sink_of client) w)

  serve-waits :
      (client : S.KubeClient) (clients : Clientset S.rest) (w : K.World)
      → S.scheme_error ≡ none
      → EachOnce S.range_types
      → (started : List String) × (run : Run K.World (Option Error)) × (serve S client clients w
          ≡ waits started run)
        × ((j : String) → contains started j ≡ (j == network_type))
        × (run.calls ≡ (
            if (K.wait_for_cache_sync awaited (prepared client w)).0
            then replicate 5 start_worker
            else []))
  unfolding serve add_event_sink new_controller new_factory
  serve-waits client clients w e once =
      let factory : NetworkFactory S.caches =
        new_factory (S.networks_client clients.bitcoincontroller_v1) resync in
      let ready : Synced K.World = record {
        bc_informer_synced = S.has_synced Setup.bitcoin_networks;
        sts_informer_synced = S.has_synced Setup.stateful_sets;
        svc_informer_synced = S.has_synced Setup.services;
        pod_informer_synced = S.has_synced Setup.pods;
      } in
      (
        (start S.range_types (ask_for_informers S factory)).0,
        run_controller K ready 5 (prepared client w),
        ground (arith, e),
        (λ j. ground (
          arith,
          start-runs (ask_for_informers S factory) S.range_types once j,
          ask_for_informers-types factory j,
          ask_for_informers-started factory,
        )),
        (run_controller-workers K ready 5 (prepared client w)).1,
      )

  -- If the configuration and the clients can be made and the scheme takes the types, `main` starts
  -- the informer for networks and no other of its factory, and then starts five workers if the caches
  -- of the controller could be filled, and none otherwise.
  pub main-waits :
      (kubeconfig : String) (config : ConfigOf S.rest) (client : S.KubeClient)
      (clients : Clientset S.rest) (w : K.World)
      → S.build_config_from_flags kubeconfig ≡ ok config
      → S.new_kube_client_for_config config ≡ ok client
      → (new_for_config S.rest config w).0 ≡ ok clients
      → S.scheme_error ≡ none
      → EachOnce S.range_types
      → let w' = (new_for_config S.rest config w).1 in
        (started : List String) × (run : Run K.World (Option Error)) × (main S kubeconfig w
          ≡ waits started run)
        × ((j : String) → contains started j ≡ (j == network_type))
        × (run.calls ≡ (
            if (K.wait_for_cache_sync awaited (prepared client w')).0
            then replicate 5 start_worker
            else []))
  unfolding main
  main-waits kubeconfig config client clients w h₀ h₁ h₂ h₃ once =
      let w' = (new_for_config S.rest config w).1 in
      let (started, run, e, starts, workers) = serve-waits client clients w' h₃ once in
      (started, run, ground (arith, h₀, h₁, h₂, e), starts, workers)
