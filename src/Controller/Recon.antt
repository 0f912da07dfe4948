-- ===== src/Controller/Recon.antt =====
-- `doRecon`, one function for each of its parts.
pub mod Outcome
pub mod Steady
pub mod Created
pub mod Again
pub mod Mesh
pub mod Own
pub mod Frame
use bitcoin_controller.Base.{
  String, ◌<>◌, Bool, true, false, not, ℤ_eqb, Option, none, some, if◌then◌else◌, format_signed,
}
use bitcoin_controller.Kube.{StatefulSet, normal}
use bitcoin_controller.Apis.{Slice, BitcoinNetwork, BitcoinNetworkNode, elements, deep_equal}
use bitcoin_controller.Client.{err, ok, BitcoinClient}
use bitcoin_controller.Effects.{record_event, Exec, pure, panic, read, emit, error_log, ◌>>=◌, ◌>>◌}
use bitcoin_controller.Cluster.{Cluster}
use bitcoin_controller.Controller.Create.{
  create_headless_service, create_stateful_set_for, update_replicas,
}
use bitcoin_controller.Controller.Status.{update_network_status}
use bitcoin_controller.Controller.Connect.{sync_nodes}

abbrev pub sts_postfix : String
sts_postfix = "-sts"

abbrev pub svc_postfix : String
svc_postfix = "-svc"

module _ (K : Cluster) where
  -- The service exists afterwards, or its creation was tried. `false` is the early return.
  unfoldable pub ensure_service : BitcoinNetwork → String → String → Exec K.World Bool
  ensure_service network namespace svc_name = do
    reply ← read (K.get_service namespace svc_name)
    elim reply [
      | ok _ ↦ pure true
      | err e ↦
          if K.is_not_found e
          then (create_headless_service K network svc_name >> pure true)
          else pure false
    ]

  -- The stateful set of the network, `some none` if it could not be created. `none` is the early
  -- return.
  unfoldable pub ensure_stateful_set :
      BitcoinNetwork → String → String → String → Exec K.World (Option (Option StatefulSet))
  ensure_stateful_set network namespace sts_name svc_name = do
    reply ← read (K.get_stateful_set namespace sts_name)
    elim reply [
      | ok sts ↦ pure (some (some sts))
      | err e ↦
          if K.is_not_found e
          then (create_stateful_set_for K network sts_name svc_name >>= λ created.
              pure (some created))
          else pure none
    ]

  -- `*sts.Spec.Replicas` panics on a nil pointer.
  unfoldable pub adjust_replicas : BitcoinNetwork → Option StatefulSet → Exec K.World (Unit {0})
  adjust_replicas network none = pure tt
  adjust_replicas network (some sts) = elim sts.spec.replicas [
    | none ↦ panic
    | some replicas ↦
        if not (ℤ_eqb replicas network.spec.nodes)
        then (let message =
              "Adjusting number of replicas to " <> format_signed network.spec.nodes <> "\n" in
            emit (record_event network normal "Info" message)
              (K.record_event network normal "Info" message)
            >> update_replicas K sts network.spec.nodes)
        else pure tt
  ]

module _ (K : Cluster) {Json : Type 0} (R : BitcoinClient K.World Json) where
  -- `if !reflect.DeepEqual(oldNodeList, newNodeList) { c.syncNodes(...) }`
  abbrev pub sync_if_changed : BitcoinNetwork → Slice BitcoinNetworkNode → Exec K.World (Unit {0})
  sync_if_changed network new_nodes =
      if not (deep_equal network.status.nodes new_nodes)
      then sync_nodes K R (elements new_nodes) network.spec.secret network.meta.namespace
      else pure tt

  -- The status, and the connections if the node list has changed.
  unfoldable pub refresh_status : BitcoinNetwork → String → String → Exec K.World (Unit {0})
  refresh_status network sts_name svc_name = do
    new_nodes ← update_network_status K network sts_name svc_name
    sync_if_changed network new_nodes

  -- What follows the look-up of the stateful set.
  abbrev pub after_set :
      BitcoinNetwork → String → String → Option (Option StatefulSet) → Exec K.World Bool
  after_set network sts_name svc_name none = pure true
  after_set network sts_name svc_name (some sts) = do
    adjust_replicas K network sts
    refresh_status network sts_name svc_name
    pure true

  -- What follows the look-up of the service.
  abbrev pub after_service : BitcoinNetwork → String → String → Bool → Exec K.World Bool
  after_service network namespace name false = pure true
  after_service network namespace name true = do
    let svc_name = name <> svc_postfix
    let sts_name = name <> sts_postfix
    found ← ensure_stateful_set K network namespace sts_name svc_name
    after_set network sts_name svc_name found

  -- What is done for a network that is in the cache and is not being deleted.
  unfoldable pub recon_network : BitcoinNetwork → String → String → Exec K.World Bool
  unfolding ensure_service ensure_stateful_set adjust_replicas refresh_status
  recon_network network namespace name = do
    go_on ← ensure_service K network namespace (name <> svc_postfix)
    after_service network namespace name go_on

  unfoldable pub do_recon : String → Exec K.World Bool
  unfolding recon_network
  do_recon key = elim (K.split_key key) [
    | err e ↦ do
      error_log ("Could not split key " <> key <> " into name and namespace\n")
      pure false
    | ok (namespace, name) ↦ do
      reply ← read (K.get_network namespace name)
      elim reply [
        | err e ↦ pure true
        | ok network ↦ elim network.meta.deletion_timestamp [
          | some _ ↦ pure true
          | none ↦ recon_network network namespace name
        ]
      ]
  ]
