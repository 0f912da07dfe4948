-- ===== src/Controller/Status/Ordinals.antt =====
-- What holds of the node list whatever the cache answers.
use bitcoin_controller.Base.{
  ℕ, zero, suc, ◌+◌, ◌≤◌, ◌<◌, ◌≡◌, refl, sym, ◌∙◌, pos, pos_part, String, ◌<>◌, List, [], ◌∷◌,
  ◌++◌, Option, none, some, arith, Bool-cases, inl, inr, subst,
}
use bitcoin_controller.Kube.{Pod}
use bitcoin_controller.Apis.{
  Slice, nil_slice, slice, elements, append, BitcoinNetwork, BitcoinNetworkNode, int32,
}
use bitcoin_controller.Client.{Result, ok, err, Request}
use bitcoin_controller.Cluster.{Cluster}
use bitcoin_controller.Effects.Returns.{Returns}
use bitcoin_controller.Controller.Status.{
  pod_name, node_of_pod, collect_nodes, store_status, update_network_status,
}

-- The ordinals rise, from `lo` on and below `hi`, and each DNS name is made of the node's name.
abbrev pub IsNumbered : String → ℕ → ℕ → List BitcoinNetworkNode → Type 0
IsNumbered svc lo hi [] = Unit
IsNumbered svc lo hi (n ∷ ns) =
    ((i : ℕ) × (lo ≤ i) × (i < hi) × (n.ordinal ≡ pos i) × IsNumbered svc (suc i) hi ns)
    × (n.dns_name ≡ n.node_name <> "." <> svc)

int32-small : (i : ℕ) → i < 2147483648 → int32 i ≡ pos i
unfolding int32
int32-small i h = ground arith

IsNumbered-mono :
    (svc : String) (lo hi more : ℕ) (ns : List BitcoinNetworkNode)
    → hi ≤ more
    → IsNumbered svc lo hi ns
    → IsNumbered svc lo more ns
IsNumbered-mono svc lo hi more [] h v = tt
IsNumbered-mono svc lo hi more (n ∷ ns) h ((i, a, b, e, rest), d) =
    ((i, a, omega arith, e, IsNumbered-mono svc (suc i) hi more ns h rest), d)

IsNumbered-append :
    (svc : String) (lo i : ℕ) (ns : List BitcoinNetworkNode) (pod : Pod)
    → lo ≤ i
    → i < 2147483648
    → IsNumbered svc lo i ns
    → IsNumbered svc lo (suc i) (ns ++ node_of_pod i svc pod ∷ [])
unfolding node_of_pod
IsNumbered-append svc lo i [] pod a b v = ((i, a, omega arith, int32-small i b, tt), refl)
IsNumbered-append svc lo i (n ∷ ns) pod a b ((j, p, q, e, rest), d) =
    ((j, p, omega arith, e, IsNumbered-append svc (suc j) i ns pod (omega arith) b rest), d)

IsNumbered-append_slice :
    (svc : String) (i : ℕ) (s : Slice BitcoinNetworkNode) (pod : Pod)
    → i < 2147483648
    → IsNumbered svc 0 i (elements s)
    → IsNumbered svc 0 (suc i) (elements (append s (node_of_pod i svc pod)))
IsNumbered-append_slice svc i nil_slice pod b v =
    IsNumbered-append svc 0 i [] pod (omega arith) b tt
IsNumbered-append_slice svc i (slice ns) pod b v =
    IsNumbered-append svc 0 i ns pod (omega arith) b v

module _ (K : Cluster) (namespace sts svc : String) where
  -- How a round of the loop ends: the run's result after it.
  data RoundEnd (rounds i : ℕ) (acc : Slice BitcoinNetworkNode)
      (r : Option (Option (Slice BitcoinNetworkNode))) : Type 0 where
    crashed : K.pods namespace ≡ none → r ≡ none → RoundEnd rounds i acc r
    stopped : r ≡ some none → RoundEnd rounds i acc r
    skipped :
        (w : K.World)
        → r ≡ (collect_nodes K namespace sts svc rounds (suc i) acc w).result
        → RoundEnd rounds i acc r
    found :
        (pod : Pod) (w : K.World)
        → r
          ≡ (collect_nodes K namespace sts svc rounds
              (suc i)
              (append acc (node_of_pod i svc pod))
              w).result
        → RoundEnd rounds i acc r

  round-cases :
      (rounds i : ℕ) (acc : Slice BitcoinNetworkNode) (w : K.World)
      → RoundEnd rounds i acc (collect_nodes K namespace sts svc (suc rounds) i acc w).result
  unfolding collect_nodes
  round-cases rounds i acc w = by_lister (K.pods namespace) refl
    where
      by_reply :
          (get : String → Request K.World Pod) (r : Result Pod)
          → K.pods namespace ≡ some get
          → (get (pod_name sts i) w).0 ≡ r
          → RoundEnd rounds i acc (collect_nodes K namespace sts svc (suc rounds) i acc w).result
      by_reply get (ok pod) e f = found pod (get (pod_name sts i) w).1 (ground arith)
      by_reply get (err x) e f = elim (Bool-cases (K.is_not_found x)) [
        | inl t ↦ skipped (get (pod_name sts i) w).1 (ground arith)
        | inr t ↦ stopped (ground arith)
      ]

      by_lister :
          (p : Option (String → Request K.World Pod))
          → K.pods namespace ≡ p
          → RoundEnd rounds i acc (collect_nodes K namespace sts svc (suc rounds) i acc w).result
      by_lister none e = crashed e (ground arith)
      by_lister (some get) e = by_reply get (get (pod_name sts i) w).0 e refl

  collect_nodes-done :
      (i : ℕ) (acc nodes : Slice BitcoinNetworkNode) (w : K.World)
      → (collect_nodes K namespace sts svc 0 i acc w).result ≡ some (some nodes)
      → acc ≡ nodes
  unfolding collect_nodes
  collect_nodes-done i acc nodes w e = ground arith

  IsNumbered-round :
      (rounds i : ℕ) (acc nodes : Slice BitcoinNetworkNode)
      (r : Option (Option (Slice BitcoinNetworkNode)))
      → i + suc rounds ≤ 2147483648
      → IsNumbered svc 0 i (elements acc)
      → ((acc' : Slice BitcoinNetworkNode) (w : K.World)
          → IsNumbered svc 0 (suc i) (elements acc')
          → (collect_nodes K namespace sts svc rounds (suc i) acc' w).result ≡ some (some nodes)
          → IsNumbered svc 0 (suc i + rounds) (elements nodes))
      → r ≡ some (some nodes)
      → RoundEnd rounds i acc r
      → IsNumbered svc 0 (i + suc rounds) (elements nodes)
  IsNumbered-round rounds i acc nodes r b v ih e (crashed q p) = cc
  IsNumbered-round rounds i acc nodes r b v ih e (stopped p) = cc
  IsNumbered-round rounds i acc nodes r b v ih e (skipped w p) =
      IsNumbered-mono svc 0 (suc i + rounds) (i + suc rounds) (elements nodes) (omega arith)
        (ih acc w (IsNumbered-mono svc 0 i (suc i) (elements acc) (omega arith) v) (sym p ∙ e))
  IsNumbered-round rounds i acc nodes r b v ih e (found pod w p) =
      IsNumbered-mono svc 0 (suc i + rounds) (i + suc rounds) (elements nodes) (omega arith) (
        ih (append acc (node_of_pod i svc pod)) w
          (IsNumbered-append_slice svc i acc pod (omega arith) v) (sym p ∙ e))

  collect_nodes-IsNumbered :
      (rounds i : ℕ) (acc nodes : Slice BitcoinNetworkNode) (w : K.World)
      → i + rounds ≤ 2147483648
      → IsNumbered svc 0 i (elements acc)
      → (collect_nodes K namespace sts svc rounds i acc w).result ≡ some (some nodes)
      → IsNumbered svc 0 (i + rounds) (elements nodes)
  collect_nodes-IsNumbered zero i acc nodes w b v e =
      IsNumbered-mono svc 0 i (i + 0) (elements nodes) (omega arith)
        (subst (λ s. IsNumbered svc 0 i (elements s)) (collect_nodes-done i acc nodes w e) v)
  collect_nodes-IsNumbered (suc rounds) i acc nodes w b v e =
      IsNumbered-round rounds i acc nodes _ b v
        (λ acc' w' v' e'. collect_nodes-IsNumbered rounds (suc i) acc' nodes w' (omega arith) v' e')
        e (round-cases rounds i acc w)

  -- With a lister the loop returns.
  collect_nodes-returns :
      (get : String → Request K.World Pod)
      → K.pods namespace ≡ some get
      → (rounds i : ℕ) (acc : Slice BitcoinNetworkNode) (w : K.World)
      → (r : Option (Slice BitcoinNetworkNode)) × ((collect_nodes K namespace sts svc rounds i acc
            w).result
          ≡ some r)
  collect_nodes-returns get e zero i acc w = (some acc, unfold collect_nodes in refl)
  collect_nodes-returns get e (suc rounds) i acc w =
      after_round (collect_nodes-returns get e rounds (suc i)) (round-cases rounds i acc w)
    where
      after_round :
          ((acc' : Slice BitcoinNetworkNode) (w' : K.World)
            → (r : Option (Slice BitcoinNetworkNode)) × ((collect_nodes K namespace sts svc rounds
                  (suc i)
                  acc'
                  w').result
                ≡ some r))
          → RoundEnd rounds i acc (collect_nodes K namespace sts svc (suc rounds) i acc w).result
          → (r : Option (Slice BitcoinNetworkNode)) × ((collect_nodes K namespace sts svc
                (suc rounds)
                i
                acc
                w).result
              ≡ some r)
      after_round ih (crashed q p) = cc
      after_round ih (stopped p) = (none, p)
      after_round ih (skipped w' p) = ((ih acc w').0, p ∙ (ih acc w').1)
      after_round ih (found pod w' p) =
          let rest = ih (append acc (node_of_pod i svc pod)) w' in (rest.0, p ∙ rest.1)

module _ (K : Cluster) (network : BitcoinNetwork) (sts svc : String) where
  store_status-returns :
      (nodes : Slice BitcoinNetworkNode) (w : K.World)
      → (store_status K network nodes w).result ≡ some tt
  unfolding store_status
  store_status-returns nodes w = ground arith

  abbrev collected : K.World → Option (Option (Slice BitcoinNetworkNode))
  collected w =
      (collect_nodes K network.meta.namespace sts svc (pos_part network.spec.nodes) 0 nil_slice
        w).result

  update_network_status-failed :
      (get : String → Request K.World Pod) (w : K.World)
      → K.pods network.meta.namespace ≡ some get
      → collected w ≡ some none
      → (update_network_status K network sts svc w).result ≡ some nil_slice
  unfolding update_network_status
  update_network_status-failed get w e p = ground arith

  update_network_status-collected :
      (get : String → Request K.World Pod) (nodes : Slice BitcoinNetworkNode) (w : K.World)
      → K.pods network.meta.namespace ≡ some get
      → collected w ≡ some (some nodes)
      → (update_network_status K network sts svc w).result ≡ some nodes
  unfolding update_network_status
  update_network_status-collected get nodes w e p = ground (
    arith,
    store_status-returns nodes
        (collect_nodes K network.meta.namespace sts svc (pos_part network.spec.nodes) 0 nil_slice
          w).world,
  )

  pub update_network_status-Returns :
      (get : String → Request K.World Pod)
      → K.pods network.meta.namespace ≡ some get
      → Returns (update_network_status K network sts svc)
  update_network_status-Returns get e w = by_list (
      collect_nodes-returns K network.meta.namespace sts svc get e (pos_part network.spec.nodes) 0
        nil_slice w)
    where
      by_list :
          (r : Option (Slice BitcoinNetworkNode)) × (collected w ≡ some r)
          → (nodes : Slice BitcoinNetworkNode) × ((update_network_status K network sts svc w).result
              ≡ some nodes)
      by_list (none, p) = (nil_slice, update_network_status-failed get w e p)
      by_list (some nodes, p) = (nodes, update_network_status-collected get nodes w e p)

  -- With a pod lister, and a number of nodes that an int32 can hold, `updateNetworkStatus` returns,
  -- whatever the cache and the API server answer. In the list that it returns the ordinals rise,
  -- each is at least 0 and below the number of nodes asked for, and each DNS name is the node's
  -- name, a dot and the name of the service.
  pub update_network_status-IsNumbered :
      (get : String → Request K.World Pod) (w : K.World)
      → K.pods network.meta.namespace ≡ some get
      → pos_part network.spec.nodes < 2147483648
      → (nodes : Slice BitcoinNetworkNode) × ((update_network_status K network sts svc w).result
          ≡ some nodes)
        × IsNumbered svc 0 (pos_part network.spec.nodes) (elements nodes)
  update_network_status-IsNumbered get w e small = by_list (
      collect_nodes-returns K network.meta.namespace sts svc get e (pos_part network.spec.nodes) 0
        nil_slice w)
    where
      by_list :
          (r : Option (Slice BitcoinNetworkNode)) × (collected w ≡ some r)
          → (nodes : Slice BitcoinNetworkNode) × ((update_network_status K network sts svc w).result
              ≡ some nodes)
            × IsNumbered svc 0 (pos_part network.spec.nodes) (elements nodes)
      by_list (none, p) = (nil_slice, update_network_status-failed get w e p, tt)
      by_list (some nodes, p) = (
        nodes,
        update_network_status-collected get nodes w e p,
        IsNumbered-mono svc 0 (0 + pos_part network.spec.nodes) (pos_part network.spec.nodes)
            (elements nodes) (omega arith)
            (collect_nodes-IsNumbered K network.meta.namespace sts svc (pos_part network.spec.nodes)
              0 nil_slice nodes w (omega arith) tt p),
      )
