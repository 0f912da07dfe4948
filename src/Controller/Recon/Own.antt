-- ===== src/Controller/Recon/Own.antt =====
-- The calls that are about one network: those of the parts of `doRecon` that speak to Kubernetes.
use bitcoin_controller.Base.{
  ◌≡◌, refl, ◌⊎◌, String, ◌<>◌, ℕ, zero, suc, ℤ, pos_part, true, Option, some, none, arith, All,
  Bool-cases, inl, inr, ℤ_eqb,
}
use bitcoin_controller.Kube.{Pod, Service, StatefulSet}
use bitcoin_controller.Apis.{Slice, nil_slice, BitcoinNetwork, BitcoinNetworkNode}
use bitcoin_controller.Client.{Error, Result, ok, err, Request}
use bitcoin_controller.Cluster.{Cluster}
use bitcoin_controller.Effects.{
  Call, create_service, create_stateful_set, update_stateful_set, update_status, get_secret,
  record_event, get_added_nodes, add_node, remove_node, queue_add, queue_done, start_worker,
  log_error, pure, ◌>>=◌,
}
use bitcoin_controller.Effects.Makes.{Makes, Makes-bind, Makes-pure}
use bitcoin_controller.Controller.Create.{
  new_stateful_set, new_headless_service, create_headless_service, create_stateful_set_for,
  update_replicas,
}
use bitcoin_controller.Secrets.{credentials_for_secret}
use bitcoin_controller.Controller.Status.{
  get_pod, pod_name, report_lister, finish_status, store_status, collect_nodes,
  update_network_status,
}
use bitcoin_controller.Controller.Recon.{
  sts_postfix, svc_postfix, ensure_service, ensure_stateful_set, adjust_replicas,
}

module _ (K : Cluster) (network : BitcoinNetwork) (namespace name : String) where
  -- A stateful set that the cache has for the network, or that the API server returned when it was
  -- created for the network.
  abbrev pub HandedOut : StatefulSet → Type 0
  HandedOut set =
      ((w : K.World) × ((K.get_stateful_set namespace (name <> sts_postfix) w).0 ≡ ok set))
      ⊎ ((w : K.World) × ((K.create_stateful_set network.meta.namespace
              (new_stateful_set K network (name <> sts_postfix) (name <> svc_postfix)) w).0
            ≡ ok set))

  -- A call to Kubernetes that is about the network: the service and the stateful set that are made for
  -- it, a stateful set that was handed out for it with nothing changed but the number of replicas, which
  -- is the network's, the status of the network with its metadata and specification as they are, its
  -- secret, or an event about it. Calls to daemons and to the log are left open, and those to the queue
  -- are excluded.
  abbrev pub IsOwn : Call → Type 0
  IsOwn (create_service ns s) =
      (ns ≡ network.meta.namespace) × (s ≡ new_headless_service K network (name <> svc_postfix))
  IsOwn (create_stateful_set ns s) =
      (ns ≡ network.meta.namespace)
      × (s ≡ new_stateful_set K network (name <> sts_postfix) (name <> svc_postfix))
  IsOwn (update_stateful_set ns s) =
      (set : StatefulSet) × HandedOut set
      × (ns ≡ set.meta.namespace)
      × (s ≡ record set { spec = record (set.spec) { replicas = some network.spec.nodes } })
  IsOwn (update_status ns n) =
      (ns ≡ network.meta.namespace) × (n.meta ≡ network.meta) × (n.spec ≡ network.spec)
  IsOwn (get_secret ns s) = (ns ≡ network.meta.namespace) × (s ≡ network.spec.secret)
  IsOwn (record_event n type reason message) = n ≡ network
  IsOwn (get_added_nodes c) = Unit
  IsOwn (add_node node c) = Unit
  IsOwn (remove_node node c) = Unit
  IsOwn (queue_add key) = ⊥
  IsOwn (queue_done item) = ⊥
  IsOwn start_worker = ⊥
  IsOwn (log_error message) = Unit

  pub create_headless_service-IsOwn :
      Makes IsOwn (create_headless_service K network (name <> svc_postfix))
  unfolding create_headless_service
  create_headless_service-IsOwn w = ground arith

  pub create_stateful_set_for-IsOwn :
      Makes IsOwn (create_stateful_set_for K network (name <> sts_postfix) (name <> svc_postfix))
  unfolding create_stateful_set_for
  create_stateful_set_for-IsOwn w = ground arith

  pub update_replicas-IsOwn :
      (sts : StatefulSet) → HandedOut sts → Makes IsOwn (update_replicas K sts network.spec.nodes)
  unfolding update_replicas
  update_replicas-IsOwn sts h w = by_reply _ refl
    where
      sent : StatefulSet
      sent = record sts { spec = record (sts.spec) { replicas = some network.spec.nodes } }

      by_reply :
          (r : Result StatefulSet)
          → (K.update_stateful_set sts.meta.namespace sent w).0 ≡ r
          → All IsOwn (update_replicas K sts network.spec.nodes w).calls
      by_reply (ok a) e = rw e ((sts, h, refl, refl), tt)
      by_reply (err x) e = rw e ((sts, h, refl, refl), (tt, tt))

  pub ensure_service-IsOwn : Makes IsOwn (ensure_service K network namespace (name <> svc_postfix))
  unfolding ensure_service
  ensure_service-IsOwn w = by_reply (K.get_service namespace (name <> svc_postfix) w).0 refl
    where
      by_reply :
          (r : Result Service)
          → (K.get_service namespace (name <> svc_postfix) w).0 ≡ r
          → All IsOwn (ensure_service K network namespace (name <> svc_postfix) w).calls
      by_reply (ok s) e = rw e tt
      by_reply (err x) e = elim (Bool-cases (K.is_not_found x)) [
        | inl t ↦
            rw (e, t)
              (Makes-bind IsOwn (create_headless_service K network (name <> svc_postfix))
                (λ _. pure true) create_headless_service-IsOwn (λ _. Makes-pure IsOwn true) _)
        | inr t ↦ rw (e, t) tt
      ]

  pub ensure_stateful_set-IsOwn :
      Makes IsOwn
        (ensure_stateful_set K network namespace (name <> sts_postfix) (name <> svc_postfix))
  unfolding ensure_stateful_set
  ensure_stateful_set-IsOwn w =
      by_reply (K.get_stateful_set namespace (name <> sts_postfix) w).0 refl
    where
      by_reply :
          (r : Result StatefulSet)
          → (K.get_stateful_set namespace (name <> sts_postfix) w).0 ≡ r
          → All IsOwn
              (ensure_stateful_set K network namespace
                (name <> sts_postfix)
                (name <> svc_postfix)
                w).calls
      by_reply (ok s) e = rw e tt
      by_reply (err x) e = elim (Bool-cases (K.is_not_found x)) [
        | inl t ↦
            rw (e, t)
              (Makes-bind IsOwn
                (create_stateful_set_for K network (name <> sts_postfix) (name <> svc_postfix))
                (λ created. pure (some created)) create_stateful_set_for-IsOwn
                (λ created. Makes-pure IsOwn (some created)) _)
        | inr t ↦ rw (e, t) tt
      ]

  abbrev pub OwnSet : Option StatefulSet → Type 0
  OwnSet none = Unit
  OwnSet (some sts) = HandedOut sts

  abbrev pub OwnResult : Option (Option StatefulSet) → Type 0
  OwnResult none = Unit
  OwnResult (some o) = OwnSet o

  -- The stateful set that the reconciliation goes on with.
  pub ensure_stateful_set-OwnResult :
      (w : K.World) (a : Option (Option StatefulSet))
      → (ensure_stateful_set K network namespace
          (name <> sts_postfix)
          (name <> svc_postfix)
          w).result
        ≡ some a
      → OwnResult a
  unfolding ensure_stateful_set create_stateful_set_for
  ensure_stateful_set-OwnResult w none h = tt
  ensure_stateful_set-OwnResult w (some none) h = tt
  ensure_stateful_set-OwnResult w (some (some set)) h =
      by_reply (K.get_stateful_set namespace (name <> sts_postfix) w).0 refl
    where
      w₁ : K.World
      w₁ = (K.get_stateful_set namespace (name <> sts_postfix) w).1

      by_created :
          (x : Error)
          → (K.get_stateful_set namespace (name <> sts_postfix) w).0 ≡ err x
          → K.is_not_found x ≡ true
          → (r : Result StatefulSet)
          → (K.create_stateful_set network.meta.namespace
              (new_stateful_set K network (name <> sts_postfix) (name <> svc_postfix))
              w₁).0
            ≡ r
          → HandedOut set
      by_created x e t (ok s) f = inr (w₁, ground (arith, h, e, t, f))
      by_created x e t (err y) f = absurd (ground (arith, h, e, t, f))

      by_reply :
          (r : Result StatefulSet)
          → (K.get_stateful_set namespace (name <> sts_postfix) w).0 ≡ r
          → HandedOut set
      by_reply (ok s) e = inl (w, ground (arith, h, e))
      by_reply (err x) e = elim (Bool-cases (K.is_not_found x)) [
        | inl t ↦ by_created x e t _ refl
        | inr t ↦ absurd (ground (arith, h, e, t))
      ]

  pub adjust_replicas-IsOwn :
      (sts : Option StatefulSet) → OwnSet sts → Makes IsOwn (adjust_replicas K network sts)
  unfolding adjust_replicas update_replicas
  adjust_replicas-IsOwn none h w = tt
  adjust_replicas-IsOwn (some sts) h w = by_replicas sts.spec.replicas refl
    where
      by_replicas :
          (r : Option ℤ)
          → sts.spec.replicas ≡ r
          → All IsOwn (adjust_replicas K network (some sts) w).calls
      by_replicas none e = rw e tt
      by_replicas (some n) e = elim (Bool-cases (ℤ_eqb n network.spec.nodes)) [
        | inl t ↦ rw (e, t) tt
        | inr t ↦ rw (e, t) (refl, update_replicas-IsOwn sts h _)
      ]

  pub store_status-IsOwn :
      (nodes : Slice BitcoinNetworkNode) → Makes IsOwn (store_status K network nodes)
  unfolding store_status
  store_status-IsOwn nodes w = ground arith

  pub credentials_for_secret-IsOwn :
      Makes IsOwn (credentials_for_secret K network.spec.secret network.meta.namespace)
  unfolding credentials_for_secret
  credentials_for_secret-IsOwn w = ground arith

  pub collect_nodes-IsOwn :
      (rounds i : ℕ) (nodes : Slice BitcoinNetworkNode)
      → Makes IsOwn (
          collect_nodes K network.meta.namespace
            (name <> sts_postfix)
            (name <> svc_postfix)
            rounds
            i
            nodes)
  unfolding collect_nodes get_pod
  collect_nodes-IsOwn zero i nodes w = tt
  collect_nodes-IsOwn (suc rounds) i nodes w =
      by_lister (λ acc. collect_nodes-IsOwn rounds (suc i) acc) (K.pods network.meta.namespace) refl
    where
      sts : String
      sts = name <> sts_postfix

      svc : String
      svc = name <> svc_postfix

      Rest : Type 0
      Rest =
          (acc : Slice BitcoinNetworkNode)
          → Makes IsOwn (collect_nodes K network.meta.namespace sts svc rounds (suc i) acc)

      All_of_round : Type 0
      All_of_round =
          All IsOwn (collect_nodes K network.meta.namespace sts svc (suc rounds) i nodes w).calls

      by_reply :
          Rest
          → (get : String → Request K.World Pod) → K.pods network.meta.namespace ≡ some get
          → (r : Result Pod) → (get (pod_name sts i) w).0 ≡ r
          → All_of_round
      by_reply rest get e (ok pod) f = rw (collect_nodes, get_pod, e, f) (rest _ _)
      by_reply rest get e (err x) f = elim (Bool-cases (K.is_not_found x)) [
        | inl t ↦ rw (collect_nodes, get_pod, e, f, t) (rest _ _)
        | inr t ↦ rw (collect_nodes, get_pod, e, f, t) (tt, tt)
      ]

      by_lister :
          Rest
          → (o : Option (String → Request K.World Pod)) → K.pods network.meta.namespace ≡ o
          → All_of_round
      by_lister rest none e = rw (collect_nodes, get_pod, e) tt
      by_lister rest (some get) e = by_reply rest get e (get (pod_name sts i) w).0 refl

  pub report_lister-IsOwn : Makes IsOwn (report_lister K network.meta.namespace)
  report_lister-IsOwn w = ground arith

  pub finish_status-IsOwn :
      (o : Option (Slice BitcoinNetworkNode)) → Makes IsOwn (finish_status K network o)
  finish_status-IsOwn none = Makes-pure IsOwn {A = Slice BitcoinNetworkNode} nil_slice
  finish_status-IsOwn (some nodes) =
      Makes-bind IsOwn (store_status K network nodes) (λ _. pure nodes) (store_status-IsOwn nodes)
        (λ _. Makes-pure IsOwn nodes)

  pub update_network_status-IsOwn :
      Makes IsOwn (update_network_status K network (name <> sts_postfix) (name <> svc_postfix))
  unfolding update_network_status
  update_network_status-IsOwn =
      let namespace = network.meta.namespace in
      let collect =
        collect_nodes K namespace (name <> sts_postfix) (name <> svc_postfix)
          (pos_part network.spec.nodes) 0 nil_slice in
      Makes-bind IsOwn (report_lister K namespace) (λ _. collect >>= finish_status K network)
        report_lister-IsOwn
        (λ _.
          Makes-bind IsOwn collect (finish_status K network) (collect_nodes-IsOwn _ 0 nil_slice)
            finish_status-IsOwn)
