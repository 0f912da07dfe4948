-- ===== src/Controller/Recon/Steady.antt =====
-- `doRecon` on a network whose service and stateful set exist.
use bitcoin_controller.Base.{
  ◌≡◌, ◌≢◌, refl, String, ◌<>◌, ℤ, ℤ_eqb, pos_part, true, List, [], ◌∷◌, ◌++◌, some, none,
  append-nil, arith, Bool-cases, inl, inr, if◌then◌else◌, format_signed,
}
use bitcoin_controller.Kube.{Pod, Service, StatefulSet, normal}
use bitcoin_controller.Apis.{
  Slice, BitcoinNetwork, BitcoinNetworkNode, elements, deep_equal, deep_equal_iff,
}
use bitcoin_controller.Client.{Result, ok, BitcoinClient}
use bitcoin_controller.Cluster.{Cluster}
use bitcoin_controller.Effects.{
  Call, update_status, update_stateful_set, record_event, unlogged, unlogged-append, after, pure,
  ◌>>◌,
}
use bitcoin_controller.Controller.Create.{update_replicas}
use bitcoin_controller.Controller.Status.{update_network_status}
use bitcoin_controller.Controller.Status.Stable.{
  StableCache, Benign, expected_nodes, update_network_status-present,
}
use bitcoin_controller.Controller.Connect.{sync_nodes}
use bitcoin_controller.Controller.Recon.{
  sts_postfix, svc_postfix, ensure_service, ensure_stateful_set, adjust_replicas, sync_if_changed,
  refresh_status, do_recon,
}

-- The calls that bring the replicas of a stateful set to those of the network.
abbrev pub adjustment : BitcoinNetwork → StatefulSet → ℤ → List Call
adjustment network sts n =
    if ℤ_eqb n network.spec.nodes
    then []
    else record_event network normal "Info"
        ("Adjusting number of replicas to " <> format_signed network.spec.nodes <> "\n")
      ∷ update_stateful_set sts.meta.namespace
          (record sts { spec = record (sts.spec) { replicas = some network.spec.nodes } })
      ∷ []

module _ (K : Cluster) where
  update_replicas-calls :
      (sts : StatefulSet) (n : ℤ) (w : K.World)
      → ((update_replicas K sts n w).result ≡ some tt)
        × (unlogged (update_replicas K sts n w).calls
            ≡ update_stateful_set sts.meta.namespace
                (record sts { spec = record (sts.spec) { replicas = some n } })
              ∷ [])
  unfolding update_replicas
  update_replicas-calls sts n w = ground arith

  pub adjust_replicas-calls :
      (network : BitcoinNetwork) (sts : StatefulSet) (n : ℤ) (w : K.World)
      → sts.spec.replicas ≡ some n
      → ((adjust_replicas K network (some sts) w).result ≡ some tt)
        × (unlogged (adjust_replicas K network (some sts) w).calls ≡ adjustment network sts n)
  unfolding adjust_replicas
  adjust_replicas-calls network sts n w e = elim (Bool-cases (ℤ_eqb n network.spec.nodes)) [
    | inl t ↦ ground (arith, e, t)
    | inr t ↦ ground (
      arith,
      e,
      t,
      update_replicas-calls sts network.spec.nodes (
          K.record_event network normal "Info"
            ("Adjusting number of replicas to " <> format_signed network.spec.nodes <> "\n") w),
    )
  ]

-- The caches have the network, which is not being deleted, its service and its stateful set.
pub record IsDeployed (K : Cluster) (network : BitcoinNetwork) (namespace name : String)
    (sts : StatefulSet) (n : ℤ) : Type 0 where
  pub cached : (w : K.World) → (K.get_network namespace name w).0 ≡ ok network
  pub alive : network.meta.deletion_timestamp ≡ none
  pub service : Service
  pub has_service : (w : K.World) → (K.get_service namespace (name <> svc_postfix) w).0 ≡ ok service
  pub has_set : (w : K.World) → (K.get_stateful_set namespace (name <> sts_postfix) w).0 ≡ ok sts
  pub has_replicas : sts.spec.replicas ≡ some n

module _ (K : Cluster) {Json : Type 0} (R : BitcoinClient K.World Json)
    (network : BitcoinNetwork) where
  pub refresh_status-run :
      (sts svc : String) (nodes : Slice BitcoinNetworkNode) (w : K.World)
      → (update_network_status K network sts svc w).result ≡ some nodes
      → let first = update_network_status K network sts svc w in
        refresh_status K R network sts svc w
        ≡ after first.calls (sync_if_changed K R network nodes first.world)
  unfolding refresh_status
  refresh_status-run sts svc nodes w e = ground arith

  sync_if_changed-same :
      (nodes : Slice BitcoinNetworkNode) (w : K.World)
      → network.status.nodes ≡ nodes
      → sync_if_changed K R network nodes w ≡ pure tt w
  sync_if_changed-same nodes w e = rw ((deep_equal_iff network.status.nodes nodes).1 e)

  pub sync_if_changed-changed :
      (nodes : Slice BitcoinNetworkNode) (w : K.World)
      → network.status.nodes ≢ nodes
      → sync_if_changed K R network nodes w
        ≡ sync_nodes K R (elements nodes) network.spec.secret network.meta.namespace w
  sync_if_changed-changed nodes w ne = elim (Bool-cases (deep_equal network.status.nodes nodes)) [
    | inl t ↦ absurd (ne ((deep_equal_iff network.status.nodes nodes).0 t))
    | inr t ↦ rw t
  ]

module _ (K : Cluster) {Json : Type 0} (R : BitcoinClient K.World Json) (network : BitcoinNetwork)
    (sts svc : String) (answer : String → Result Pod)
    (S : StableCache K network.meta.namespace answer)
    (b : Benign K network.meta.namespace sts svc answer S (pos_part network.spec.nodes))
    (same : network.status.nodes ≡ expected_nodes K network sts svc answer S) where
  -- A network whose status is up to date: the status is written again as it is, and no daemon is
  -- spoken to.
  pub refresh_status-unchanged :
      (w : K.World)
      → ((refresh_status K R network sts svc w).result ≡ some tt)
        × (unlogged (refresh_status K R network sts svc w).calls
            ≡ update_status network.meta.namespace network ∷ [])
  refresh_status-unchanged w =
      let first = update_network_status K network sts svc w in
      let status = update_network_status-present K network sts svc answer S w b in
      rw
        (
          refresh_status-run K R network sts svc _ w status.0,
          sync_if_changed-same K R network _ first.world same,
          append-nil first.calls,
          status.1,
          ← same,
        )
        (refl, refl)

module _ (K : Cluster) {Json : Type 0} (R : BitcoinClient K.World Json) where
  -- `doRecon` up to the status, in the world that the stateful set was read in.
  pub do_recon-run :
      (network : BitcoinNetwork) (key namespace name : String) (set : StatefulSet) (n : ℤ)
      (w : K.World)
      → K.split_key key ≡ ok (namespace, name)
      → IsDeployed K network namespace name set n
      → let sts = name <> sts_postfix in
        let svc = name <> svc_postfix in
        let w₁ = (K.get_network namespace name w).1 in
        let w₂ = (K.get_service namespace svc w₁).1 in
        let w₃ = (K.get_stateful_set namespace sts w₂).1 in
        do_recon K R key w
        ≡ ((adjust_replicas K network (some set))
              >> (refresh_status K R network sts svc >> pure true))
            w₃
  unfolding do_recon ensure_service ensure_stateful_set
  do_recon-run network key namespace name set n w e d =
      let w₁ = (K.get_network namespace name w).1 in
      let w₂ = (K.get_service namespace (name <> svc_postfix) w₁).1 in
      ground (arith, e, d.cached w, d.alive, d.has_service w₁, d.has_set w₂)

  -- `doRecon` on a deployed network whose status is up to date: it returns true. It sends the
  -- number of replicas if it differs from the number of nodes of the network, after an event, and
  -- changes nothing else in the set. Then it stores the status, with the network as it is. It
  -- creates nothing and speaks to no daemon.
  pub do_recon-deployed :
      (network : BitcoinNetwork) (key namespace name : String) (set : StatefulSet) (n : ℤ)
      (answer : String → Result Pod) (S : StableCache K network.meta.namespace answer) (w : K.World)
      → K.split_key key ≡ ok (namespace, name)
      → IsDeployed K network namespace name set n
      → Benign K network.meta.namespace
          (name <> sts_postfix)
          (name <> svc_postfix)
          answer
          S
          (pos_part network.spec.nodes)
      → network.status.nodes
        ≡ expected_nodes K network (name <> sts_postfix) (name <> svc_postfix) answer S
      → ((do_recon K R key w).result ≡ some true)
        × (unlogged (do_recon K R key w).calls
            ≡ adjustment network set n ++ update_status network.meta.namespace network ∷ [])
  do_recon-deployed network key namespace name set n answer S w e d b same =
      let sts = name <> sts_postfix in
      let svc = name <> svc_postfix in
      let w₁ = (K.get_network namespace name w).1 in
      let w₂ = (K.get_service namespace svc w₁).1 in
      let w₃ = (K.get_stateful_set namespace sts w₂).1 in
      let w₄ = (adjust_replicas K network (some set) w₃).world in
      let adjusted = adjust_replicas-calls K network set n w₃ d.has_replicas in
      let status = refresh_status-unchanged K R network sts svc answer S b same w₄ in
      rw (do_recon-run network key namespace name set n w e d) (
        ground (
          arith,
          adjusted.0,
          adjusted.1,
          status.0,
          status.1,
          append-nil (refresh_status K R network sts svc w₄).calls,
          unlogged-append (adjust_replicas K network (some set) w₃).calls
              (refresh_status K R network sts svc w₄).calls,
        ))
