-- ===== src/Controller/Status.antt =====
-- `podReady` and `updateNetworkStatus`.
pub mod Ordinals
pub mod Stable
use bitcoin_controller.Base.{
  ℕ, zero, suc, pos_part, String, ◌<>◌, Bool, true, false, List, [], ◌∷◌, Option, none, some, ◌==◌,
  if◌then◌else◌, format_int,
}
use bitcoin_controller.Kube.{Pod, PodCondition}
use bitcoin_controller.Apis.{Slice, nil_slice, append, BitcoinNetwork, BitcoinNetworkNode, int32}
use bitcoin_controller.Client.{error_text, Result, ok, err}
use bitcoin_controller.Effects.{
  update_status, Exec, pure, panic, request, read, error_log, ◌>>=◌, ◌>>◌,
}
use bitcoin_controller.Cluster.{Cluster}

-- The loop over the conditions, with the result so far.
ready_loop : Bool → List PodCondition → Bool
ready_loop result [] = result
ready_loop result (cond ∷ conds) =
    ready_loop
      (if cond.type == "Ready" then (if cond.status == "True" then true else result) else result)
      conds

unfoldable pub pod_ready : Pod → Bool
unfolding ready_loop
pod_ready pod = ready_loop false pod.conditions

unfoldable pub pod_name : String → ℕ → String
unfolding format_int
pod_name sts_name i = sts_name <> "-" <> format_int i

-- What is written down of a pod that was found.
unfoldable pub node_of_pod : ℕ → String → Pod → BitcoinNetworkNode
unfolding int32 pod_ready
node_of_pod i svc_name pod = record {
  ordinal = int32 i;
  ready = pod_ready pod;
  ip = pod.pod_ip;
  node_name = pod.meta.name;
  dns_name = pod.meta.name <> "." <> svc_name;
}

module _ (K : Cluster) where
  -- `podNamespaceLister.Get(name)`: a nil lister panics.
  unfoldable pub get_pod : String → String → Exec K.World (Result Pod)
  get_pod namespace name = elim (K.pods namespace) [ none ↦ panic | some get ↦ read (get name) ]

  -- The loop from `i` on for the given number of rounds. `none` is the early return.
  unfoldable pub collect_nodes :
      String
      → String
      → String
      → ℕ
      → ℕ
      → Slice BitcoinNetworkNode
      → Exec K.World (Option (Slice BitcoinNetworkNode))
  unfolding get_pod
  collect_nodes namespace sts_name svc_name zero i nodes = pure (some nodes)
  collect_nodes namespace sts_name svc_name (suc rounds) i nodes = do
    reply ← get_pod namespace (pod_name sts_name i)
    elim reply [
      | err e ↦
          if K.is_not_found e
          then collect_nodes namespace sts_name svc_name rounds (suc i) nodes
          else do
            error_log ("Unexpected error during GET of pod " <> pod_name sts_name i <> "\n")
            pure none
      | ok pod ↦
          collect_nodes namespace sts_name svc_name rounds (suc i)
            (append nodes (node_of_pod i svc_name pod))
    ]

  -- The status update itself.
  unfoldable pub store_status : BitcoinNetwork → Slice BitcoinNetworkNode → Exec K.World (Unit {0})
  store_status network nodes = do
    let copy : BitcoinNetwork = record network { status = record { nodes = nodes } }
    reply ←
        request (update_status network.meta.namespace copy)
          (K.update_status network.meta.namespace copy)
    elim reply [
      | ok _ ↦ pure tt
      | err e ↦ error_log (
          "Error "
          <> error_text e
          <> " during UpdateStatus for bitcoin network "
          <> network.meta.name
          <> "\n")
    ]

  abbrev pub report_lister : String → Exec K.World (Unit {0})
  report_lister namespace = elim (K.pods namespace) [
    | none ↦
        error_log
          ("Could not get pod namespace lister for namespace " <> namespace <> ", giving up\n")
    | some _ ↦ pure tt
  ]

  -- What follows the loop.
  abbrev pub finish_status :
      BitcoinNetwork → Option (Slice BitcoinNetworkNode) → Exec K.World (Slice BitcoinNetworkNode)
  finish_status network none = pure nil_slice
  finish_status network (some nodes) = do store_status network nodes; pure nodes

  unfoldable pub update_network_status :
      BitcoinNetwork → String → String → Exec K.World (Slice BitcoinNetworkNode)
  unfolding collect_nodes store_status
  update_network_status network sts_name svc_name = do
    report_lister network.meta.namespace
    collected ←
        collect_nodes network.meta.namespace sts_name svc_name (pos_part network.spec.nodes) 0
          nil_slice
    finish_status network collected
