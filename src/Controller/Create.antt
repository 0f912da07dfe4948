-- ===== src/Controller/Create.antt =====
-- `createStatefulSet`, `createHeadlessService` and `updateStatefulSet`.
pub mod Fit
use bitcoin_controller.Base.{
  ℤ, String, ◌<>◌, true, List, [], ◌∷◌, Option, none, some, ◌==◌, if◌then◌else◌,
}
use bitcoin_controller.Kube.{
  ObjectMeta, Service, StatefulSet, Container, Probe, SecretEnvSource, pull_if_not_present, normal,
  warning, Labels,
}
use bitcoin_controller.Apis.{BitcoinNetwork, with_kind}
use bitcoin_controller.Client.{error_text, ok, err}
use bitcoin_controller.Effects.{
  create_service, create_stateful_set, update_stateful_set, record_event, Exec, pure, request, emit,
  error_log, ◌>>=◌, ◌>>◌,
}
use bitcoin_controller.Cluster.{Cluster}

-- `map[string]string{"app": name}`
abbrev pub app_labels : String → Labels
app_labels name = ("app", name) ∷ []

-- The `EnvFrom` of a container that refers to a secret.
abbrev pub secret_source : String → SecretEnvSource
secret_source name = record { optional = true; name = name }

abbrev pub readiness_probe : Probe
readiness_probe = record {
  initial_delay_seconds = 5;
  period_seconds = 5;
  command =
      "/usr/local/bin/bitcoin-cli" ∷ "-regtest" ∷ "-conf=/bitcoin.conf" ∷ "getnetworkinfo" ∷ [];
}

-- `containers[0].EnvFrom = ...`
set_env_from : List SecretEnvSource → List Container → List Container
set_env_from env [] = []
set_env_from env (c ∷ cs) = record c { env_from = env } ∷ cs

module _ (K : Cluster) where
  -- The metadata of an object that the network owns.
  abbrev pub owned_meta : BitcoinNetwork → String → ObjectMeta
  owned_meta network name = record {
    name = name;
    namespace = network.meta.namespace;
    uid = "";
    labels = [];
    owner_references = K.new_controller_ref network.meta (with_kind "BitcoinNetwork") ∷ [];
    deletion_timestamp = none;
  }

  -- The stateful set before the secret is put in.
  abbrev base_stateful_set : BitcoinNetwork → String → String → StatefulSet
  base_stateful_set network sts_name svc_name = record {
    type_meta = record { kind = "Statefulset"; api_version = "apps/v1" };
    meta = owned_meta network sts_name;
    spec = record {
      replicas = some network.spec.nodes;
      service_name = svc_name;
      match_labels = app_labels network.meta.name;
      template = record {
        meta = record {
          name = "";
          namespace = network.meta.namespace;
          uid = "";
          labels = app_labels network.meta.name;
          owner_references = [];
          deletion_timestamp = none;
        };
        containers =
            record {
              name = sts_name <> "-ctr";
              image = "christianb93/bitcoind:v1.0";
              image_pull_policy = pull_if_not_present;
              readiness_probe = readiness_probe;
              env_from = [];
            }
            ∷ [];
      };
    };
  }

  with_env_from : List SecretEnvSource → StatefulSet → StatefulSet
  unfolding set_env_from
  with_env_from env sts = record sts {
    spec = record (sts.spec) {
      template = record (sts.spec.template) {
        containers = set_env_from env sts.spec.template.containers;
      };
    };
  }

  -- The stateful set that is sent.
  unfoldable pub new_stateful_set : BitcoinNetwork → String → String → StatefulSet
  unfolding with_env_from
  new_stateful_set network sts_name svc_name =
      let sts = base_stateful_set network sts_name svc_name in
      if network.spec.secret == ""
      then sts
      else with_env_from (secret_source network.spec.secret ∷ []) sts

  unfoldable pub create_stateful_set_for :
      BitcoinNetwork → String → String → Exec K.World (Option StatefulSet)
  create_stateful_set_for network sts_name svc_name = do
    let sts = new_stateful_set network sts_name svc_name
    reply ←
        request (create_stateful_set network.meta.namespace sts)
          (K.create_stateful_set network.meta.namespace sts)
    elim reply [
      | ok created ↦ do
        let message = "Created stateful set for bitcoin network  " <> network.meta.name <> "\n"
        emit (record_event network normal "Info" message)
            (K.record_event network normal "Info" message)
        pure (some created)
      | err e ↦ if K.is_already_exists e then pure none else do
        let message =
            "Could not create stateful set " <> sts_name <> ", error is " <> error_text e <> "\n"
        error_log message
        emit (record_event network warning "CreationError" message)
            (K.record_event network warning "CreationError" message)
        pure none
    ]

  -- The headless service that is sent.
  unfoldable pub new_headless_service : BitcoinNetwork → String → Service
  new_headless_service network svc_name = record {
    type_meta = record { kind = "Service"; api_version = "v1" };
    meta = owned_meta network svc_name;
    cluster_ip = "None";
    selector = app_labels network.meta.name;
  }

  unfoldable pub create_headless_service : BitcoinNetwork → String → Exec K.World (Unit {0})
  create_headless_service network svc_name = do
    let service = new_headless_service network svc_name
    reply ←
        request (create_service network.meta.namespace service)
          (K.create_service network.meta.namespace service)
    elim reply [
      | ok _ ↦
          let message =
            "Created headless service for bitcoin network  " <> network.meta.name <> "\n" in
          emit (record_event network normal "Info" message)
            (K.record_event network normal "Info" message)
      | err e ↦ if K.is_already_exists e then pure tt else do
        error_log ("Could not create service " <> svc_name <> ", error is " <> error_text e <> "\n")
        let message = "Could not service " <> svc_name <> ", error is " <> error_text e <> "\n"
        emit (record_event network warning "CreationError" message)
            (K.record_event network warning "CreationError" message)
    ]

  unfoldable pub update_replicas : StatefulSet → ℤ → Exec K.World (Unit {0})
  update_replicas sts replica_count = do
    let copy : StatefulSet = record sts {
      spec = record (sts.spec) { replicas = some replica_count };
    }
    reply ←
        request (update_stateful_set copy.meta.namespace copy)
          (K.update_stateful_set copy.meta.namespace copy)
    elim reply [
      | ok _ ↦ pure tt
      | err e ↦ error_log ("Could not update replica set, error is " <> error_text e <> "\n")
    ]
