-- ===== src/Controller/Setup.antt =====
-- `NewController` and the setters.
pub mod Handlers
use bitcoin_controller.Base.{String, Bool, List, [], ◌∷◌, Option, none, some, pos}
use bitcoin_controller.Kube.{AnyObject}
use bitcoin_controller.Client.{Error, Config, BitcoinClient}
use bitcoin_controller.Client.Impl.{Http, new_client_for_config}
use bitcoin_controller.Effects.{Exec, pure, ◌>>=◌, ◌>>◌}
use bitcoin_controller.Cluster.{Cluster}
use bitcoin_controller.Secrets.{default_rpc_user, default_rpc_password}
use bitcoin_controller.Controller.Queue.{
  Synced, add_bitcoin_network, update_bitcoin_network, update_object,
}

-- The informers that the controller is made with.
pub data InformerKind : Type 0 where
  bitcoin_networks stateful_sets services pods : InformerKind

-- `cache.ResourceEventHandlerFuncs`, whose functions may be nil.
pub record HandlerFuncs (W : Type 0) : Type 0 where
  pub add_func : Option (AnyObject → Exec W (Unit {0}))
  pub update_func : Option (AnyObject → AnyObject → Exec W (Unit {0}))
  pub delete_func : Option (AnyObject → Exec W (Unit {0}))

-- The fields of the controller that the setters change; the others are the cluster's.
pub record Controller (W Json : Type 0) : Type 0 where
  pub synced : Synced W
  pub rpc_client : BitcoinClient W Json

abbrev pub default_config : Config
default_config = record {
  rpc_user = default_rpc_user;
  rpc_password = default_rpc_password;
  server_port = pos 18332;
  server_ip = "127.0.0.1";
}

module _ {W Json : Type 0} where
  unfoldable pub set_bc_informer_synced : (W → Bool) → Controller W Json → Controller W Json
  set_bc_informer_synced f c = record c { synced = record (c.synced) { bc_informer_synced = f } }

  unfoldable pub set_sts_informer_synced : (W → Bool) → Controller W Json → Controller W Json
  set_sts_informer_synced f c = record c { synced = record (c.synced) { sts_informer_synced = f } }

  unfoldable pub set_svc_informer_synced : (W → Bool) → Controller W Json → Controller W Json
  set_svc_informer_synced f c = record c { synced = record (c.synced) { svc_informer_synced = f } }

  unfoldable pub set_pod_informer_synced : (W → Bool) → Controller W Json → Controller W Json
  set_pod_informer_synced f c = record c { synced = record (c.synced) { pod_informer_synced = f } }

  unfoldable pub set_rpc_client : BitcoinClient W Json → Controller W Json → Controller W Json
  set_rpc_client client c = record c { rpc_client = client }

-- `StartRecordingToSink` of the broadcaster is a parameter.
unfoldable pub add_event_sink : {W Sink : Type 0} → (Sink → W → W) → Sink → W → W
add_event_sink start_recording_to_sink event_sink = start_recording_to_sink event_sink

module _ (K : Cluster) where
  -- The handlers that are registered with the informers, in order.
  abbrev pub registrations : List (InformerKind × HandlerFuncs K.World)
  registrations =
      (
        bitcoin_networks,
        record {
          add_func = some (add_bitcoin_network K);
          update_func = some (update_bitcoin_network K);
          delete_func = none;
        },
      )
      ∷ (
        stateful_sets,
        record { add_func = none; update_func = some (update_object K); delete_func = none },
      )
      ∷ (
        services,
        record { add_func = none; update_func = some (update_object K); delete_func = none },
      )
      ∷ []

module _ (K : Cluster) {Json : Type 0} (H : Http K.World Json) where
  -- The first argument is what `AddToScheme` returns; `none` is the panic of `runtime.Must`.
  -- `has_synced` is the method of that name of the informers.
  unfoldable pub new_controller :
      Option Error
      → (InformerKind → K.World → Bool)
      → Option (Controller K.World Json × List (InformerKind × HandlerFuncs K.World))
  unfolding new_client_for_config
  new_controller (some e) has_synced = none
  new_controller none has_synced = some (
    record {
      synced = record {
        bc_informer_synced = has_synced bitcoin_networks;
        sts_informer_synced = has_synced stateful_sets;
        svc_informer_synced = has_synced services;
        pod_informer_synced = has_synced pods;
      };
      rpc_client = new_client_for_config H default_config;
    },
    registrations K,
  )
