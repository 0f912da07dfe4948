-- ===== src/Controller/Recon/Outcome.antt =====
-- When `doRecon` returns, and what.
use bitcoin_controller.Base.{
  ◌≡◌, ◌≢◌, refl, inl, inr, String, Bool, true, false, List, [], Option, none, some, arith,
  Option-cases, Bool-cases, ℤ, ◌<>◌, format_signed,
}
use bitcoin_controller.Kube.{Pod, Service, StatefulSet, normal}
use bitcoin_controller.Apis.{BitcoinNetwork, BitcoinNetworkNode, elements}
use bitcoin_controller.Client.{is_ok, Result, ok, err, Request, BitcoinClient}
use bitcoin_controller.Cluster.{Cluster}
use bitcoin_controller.Effects.Returns.{Returns, Returns-bind, Returns-pure, Returns-if}
use bitcoin_controller.Secrets.Origin.{credentials_for_secret-Origin}
use bitcoin_controller.Secrets.{credentials_for_secret}
use bitcoin_controller.Effects.Loops.{for_each-total}
use bitcoin_controller.Controller.Create.{
  create_headless_service, new_stateful_set, create_stateful_set_for, update_replicas,
}
use bitcoin_controller.Controller.Status.{update_network_status}
use bitcoin_controller.Controller.Connect.{sync_nodes, connect_at, ready_keys, with_credentials}
use bitcoin_controller.Controller.Connect.Rounds.{connect_node-total}
use bitcoin_controller.Controller.Connect.Run.{sync_nodes-run}
use bitcoin_controller.Controller.Status.Ordinals.{update_network_status-Returns}
use bitcoin_controller.Controller.Recon.{
  ensure_service, ensure_stateful_set, adjust_replicas, sts_postfix, svc_postfix, sync_if_changed,
  refresh_status, recon_network, do_recon,
}

module _ (K : Cluster) where
  -- Every namespace has a pod lister.
  pub record HasListers : Type 0 where
    pub lister :
        (namespace : String) → (get : String → Request K.World Pod) × (K.pods namespace ≡ some get)

  -- The API server fills in the replicas of a stateful set, so that a set which it hands out has
  -- the pointer set.
  pub record DefaultsReplicas : Type 0 where
    pub cached :
        (namespace name : String) (w : K.World) (sts : StatefulSet)
        → (K.get_stateful_set namespace name w).0 ≡ ok sts
        → sts.spec.replicas ≢ none
    pub created :
        (namespace : String) (sent : StatefulSet) (w : K.World) (sts : StatefulSet)
        → (K.create_stateful_set namespace sent w).0 ≡ ok sts
        → sts.spec.replicas ≢ none

  create_headless_service-Returns :
      (network : BitcoinNetwork) (svc : String) → Returns (create_headless_service K network svc)
  unfolding create_headless_service
  create_headless_service-Returns network svc w = (tt, ground arith)

  update_replicas-Returns : (sts : StatefulSet) (n : ℤ) → Returns (update_replicas K sts n)
  unfolding update_replicas
  update_replicas-Returns sts n w = (tt, ground arith)

  credentials_for_secret-Returns :
      (name namespace : String) → Returns (credentials_for_secret K name namespace)
  credentials_for_secret-Returns name namespace w =
      let found = credentials_for_secret-Origin K name namespace w in (found.0, found.1)

  ensure_service-Returns :
      (network : BitcoinNetwork) (namespace svc : String)
      → Returns (ensure_service K network namespace svc)
  unfolding ensure_service
  ensure_service-Returns network namespace svc w = by_reply (K.get_service namespace svc w).0 refl
    where
      w₁ : K.World
      w₁ = (K.get_service namespace svc w).1

      by_reply :
          (r : Result Service)
          → (K.get_service namespace svc w).0 ≡ r
          → (a : Bool) × ((ensure_service K network namespace svc w).result ≡ some a)
      by_reply (ok s) e = (true, ground arith)
      by_reply (err x) e = elim (Bool-cases (K.is_not_found x)) [
        | inl t ↦ (true, ground (arith, (create_headless_service-Returns network svc w₁).1))
        | inr t ↦ (false, ground arith)
      ]

  -- What was found or made has its replicas set.
  abbrev HasReplicas : Option StatefulSet → Type 0
  HasReplicas none = Unit
  HasReplicas (some sts) = sts.spec.replicas ≢ none

  create_stateful_set_for-returns :
      DefaultsReplicas
      → (network : BitcoinNetwork) (sts svc : String) (w : K.World)
      → (r : Option StatefulSet) × ((create_stateful_set_for K network sts svc w).result ≡ some r)
        × HasReplicas r
  unfolding create_stateful_set_for
  create_stateful_set_for-returns D network sts svc w =
      by_reply (K.create_stateful_set network.meta.namespace sent w).0 refl
    where
      sent : StatefulSet
      sent = new_stateful_set K network sts svc

      by_reply :
          (r : Result StatefulSet)
          → (K.create_stateful_set network.meta.namespace sent w).0 ≡ r
          → (r : Option StatefulSet) × ((create_stateful_set_for K network sts svc w).result
              ≡ some r)
            × HasReplicas r
      by_reply (ok made) e =
          (some made, ground arith, D.created network.meta.namespace sent w made e)
      by_reply (err x) e = (none, ground arith, tt)

  abbrev FoundReplicas : Option (Option StatefulSet) → Type 0
  FoundReplicas none = Unit
  FoundReplicas (some r) = HasReplicas r

  ensure_stateful_set-returns :
      DefaultsReplicas
      → (network : BitcoinNetwork) (namespace sts svc : String) (w : K.World)
      → (r : Option (Option StatefulSet)) × ((ensure_stateful_set K network namespace sts svc
            w).result
          ≡ some r)
        × FoundReplicas r
  unfolding ensure_stateful_set
  ensure_stateful_set-returns D network namespace sts svc w =
      by_reply (K.get_stateful_set namespace sts w).0 refl
    where
      w₁ : K.World
      w₁ = (K.get_stateful_set namespace sts w).1

      by_reply :
          (r : Result StatefulSet)
          → (K.get_stateful_set namespace sts w).0 ≡ r
          → (r : Option (Option StatefulSet)) × ((ensure_stateful_set K network namespace sts svc
                w).result
              ≡ some r)
            × FoundReplicas r
      by_reply (ok s) e = (some (some s), ground arith, D.cached namespace sts w s e)
      by_reply (err x) e = elim (Bool-cases (K.is_not_found x)) [
        | inl t ↦
            let made = create_stateful_set_for-returns D network sts svc w₁ in
            (some made.0, ground (arith, made.1), made.2)
        | inr t ↦ (none, ground arith, tt)
      ]

  adjust_replicas-returns :
      (network : BitcoinNetwork) (r : Option StatefulSet) (w : K.World)
      → HasReplicas r
      → (adjust_replicas K network r w).result ≡ some tt
  unfolding adjust_replicas
  adjust_replicas-returns network none w h = refl
  adjust_replicas-returns network (some sts) w h = elim (Option-cases sts.spec.replicas) [
    | inl e ↦ absurd (h e)
    | inr (n, e) ↦ ground (
      arith,
      e,
      update_replicas-Returns sts network.spec.nodes (
          K.record_event network normal "Info"
            ("Adjusting number of replicas to " <> format_signed network.spec.nodes <> "\n") w),
    )
  ]

module _ (K : Cluster) {Json : Type 0} (R : BitcoinClient K.World Json) where
  sync_nodes-Returns :
      (nodes : List BitcoinNetworkNode) (name namespace : String)
      → Returns (sync_nodes K R nodes name namespace)
  sync_nodes-Returns nodes name namespace w =
      let (cred, e) = credentials_for_secret-Returns K name namespace w in
      let first = credentials_for_secret K name namespace w in
      (
        tt,
        rw (sync_nodes-run K R nodes name namespace w cred e) (
            for_each-total (connect_at K R (with_credentials K R cred) (ready_keys nodes []))
              (λ ip. connect_node-total K R _ (ready_keys nodes []))
              (K.range_order first.world (ready_keys nodes [])) first.world),
      )

  refresh_status-Returns :
      HasListers K
      → (network : BitcoinNetwork) (sts svc : String) → Returns (refresh_status K R network sts svc)
  unfolding refresh_status
  refresh_status-Returns H network sts svc =
      Returns-bind (update_network_status K network sts svc) (sync_if_changed K R network)
        (update_network_status-Returns K network sts svc (H.lister network.meta.namespace).0
          (H.lister network.meta.namespace).1)
        (λ nodes.
          Returns-if _ _ _
            (sync_nodes-Returns (elements nodes) network.spec.secret network.meta.namespace)
            (Returns-pure tt))

  recon_network-returns :
      HasListers K
      → DefaultsReplicas K
      → (network : BitcoinNetwork) (namespace name : String) (w : K.World)
      → (recon_network K R network namespace name w).result ≡ some true
  unfolding recon_network
  recon_network-returns H D network namespace name w =
      by_service (ensure_service-Returns K network namespace svc w)
    where
      svc : String
      svc = name <> svc_postfix

      sts : String
      sts = name <> sts_postfix

      w₁ : K.World
      w₁ = (ensure_service K network namespace svc w).world

      w₂ : K.World
      w₂ = (ensure_stateful_set K network namespace sts svc w₁).world

      by_set :
          (ensure_service K network namespace svc w).result ≡ some true
          → (r : Option (Option StatefulSet)) × ((ensure_stateful_set K network namespace sts svc
                w₁).result
              ≡ some r)
            × FoundReplicas K r
          → (recon_network K R network namespace name w).result ≡ some true
      by_set e (none, f, h) = ground (arith, e, f)
      by_set e (some r, f, h) =
          let w₃ = (adjust_replicas K network r w₂).world in
          ground (
            arith,
            e,
            f,
            adjust_replicas-returns K network r w₂ h,
            (refresh_status-Returns H network sts svc w₃).1,
          )

      by_service :
          (a : Bool) × ((ensure_service K network namespace svc w).result ≡ some a)
          → (recon_network K R network namespace name w).result ≡ some true
      by_service (false, e) = ground (arith, e)
      by_service (true, e) = by_set e (ensure_stateful_set-returns K D network namespace sts svc w₁)

  -- With a pod lister for every namespace and replicas set in every stateful set that the API server
  -- hands out, `doRecon` returns, whatever else fails on the way. It returns true exactly when the
  -- key could be split.
  pub do_recon-result :
      HasListers K
      → DefaultsReplicas K
      → (key : String) (w : K.World) → (do_recon K R key w).result ≡ some (is_ok (K.split_key key))
  unfolding do_recon
  do_recon-result H D key w = by_key (K.split_key key) refl
    where
      by_network :
          (namespace name : String)
          → K.split_key key ≡ ok (namespace, name)
          → (r : Result BitcoinNetwork) → (K.get_network namespace name w).0 ≡ r
          → (do_recon K R key w).result ≡ some true
      by_network namespace name e (err x) f = ground (arith, e, f)
      by_network namespace name e (ok network) f = ground (
        arith,
        e,
        f,
        recon_network-returns H D network namespace name (K.get_network namespace name w).1,
      )

      by_key :
          (r : Result (String × String))
          → K.split_key key ≡ r
          → (do_recon K R key w).result ≡ some (is_ok r)
      by_key (err x) e = ground (arith, e)
      by_key (ok (namespace, name)) e =
          by_network namespace name e (K.get_network namespace name w).0 refl
