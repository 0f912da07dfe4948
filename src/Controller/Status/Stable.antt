-- ===== src/Controller/Status/Stable.antt =====
-- The node list when the cache of pods does not change in the course of the loop.
use bitcoin_controller.Base.{
  ℕ, zero, suc, ◌+◌, ◌≤◌, ◌<◌, ◌≡◌, ◌≢◌, refl, ap, pos_part, String, true, false, List, [], ◌∷◌,
  ◌++◌, append_assoc, append-nil, Option, none, some, arith, inl, inr, Bool-cases,
}
use bitcoin_controller.Kube.{Pod}
use bitcoin_controller.Apis.{Slice, nil_slice, slice, append, BitcoinNetwork, BitcoinNetworkNode}
use bitcoin_controller.Client.{Result, ok, err, Error, Request}
use bitcoin_controller.Cluster.{Cluster}
use bitcoin_controller.Effects.{Run, update_status, unlogged}
use bitcoin_controller.Controller.Status.{
  pod_name, node_of_pod, collect_nodes, store_status, update_network_status,
}

-- The slice with these elements that `append` builds from nil.
abbrev pub to_slice {ℓ} : {A : Type ℓ} → List A → Slice A
to_slice [] = nil_slice
to_slice (x ∷ xs) = slice (x ∷ xs)

append-to_slice {ℓ} :
    {A : Type ℓ} (xs : List A) (x : A) → append (to_slice xs) x ≡ to_slice (xs ++ x ∷ [])
append-to_slice [] x = refl
append-to_slice (y ∷ xs) x = refl

-- The nodes of the pods that are there, among the given number of ordinals from `i` on.
abbrev pub present_nodes : (String → Result Pod) → String → String → ℕ → ℕ → List BitcoinNetworkNode
present_nodes answer sts svc zero i = []
present_nodes answer sts svc (suc rounds) i = elim (answer (pod_name sts i)) [
  | ok pod ↦ node_of_pod i svc pod ∷ present_nodes answer sts svc rounds (suc i)
  | err e ↦ present_nodes answer sts svc rounds (suc i)
]

-- The lister of the namespace is there, and answers the same in every world.
pub record StableCache (K : Cluster) (namespace : String) (answer : String → Result Pod)
    : Type 0 where
  pub get : String → Request K.World Pod
  pub has_lister : K.pods namespace ≡ some get
  pub stable : (name : String) (w : K.World) → (get name w).0 ≡ answer name

module _ (K : Cluster) (namespace sts svc : String) (answer : String → Result Pod)
    (S : StableCache K namespace answer) where
  abbrev loop :
      ℕ → ℕ → Slice BitcoinNetworkNode → K.World → Run K.World (Option (Slice BitcoinNetworkNode))
  loop = collect_nodes K namespace sts svc

  loop-found :
      (rounds i : ℕ) (acc : Slice BitcoinNetworkNode) (w : K.World) (pod : Pod)
      → answer (pod_name sts i) ≡ ok pod
      → loop (suc rounds) i acc w
        ≡ loop rounds (suc i) (append acc (node_of_pod i svc pod)) (S.get (pod_name sts i) w).1
  unfolding collect_nodes
  loop-found rounds i acc w pod e = ground (arith, S.has_lister, S.stable (pod_name sts i) w)

  loop-missing :
      (rounds i : ℕ) (acc : Slice BitcoinNetworkNode) (w : K.World) (e : Error)
      → answer (pod_name sts i) ≡ err e
      → K.is_not_found e ≡ true
      → loop (suc rounds) i acc w ≡ loop rounds (suc i) acc (S.get (pod_name sts i) w).1
  unfolding collect_nodes
  loop-missing rounds i acc w e p q = ground (arith, S.has_lister, S.stable (pod_name sts i) w)

  loop-failed :
      (rounds i : ℕ) (acc : Slice BitcoinNetworkNode) (w : K.World) (e : Error)
      → answer (pod_name sts i) ≡ err e
      → K.is_not_found e ≡ false
      → ((loop (suc rounds) i acc w).result ≡ some none)
        × (unlogged (loop (suc rounds) i acc w).calls ≡ [])
  unfolding collect_nodes
  loop-failed rounds i acc w e p q = ground (arith, S.has_lister, S.stable (pod_name sts i) w)

  present_nodes-found :
      (rounds i : ℕ) (pod : Pod)
      → answer (pod_name sts i) ≡ ok pod
      → present_nodes answer sts svc (suc rounds) i
        ≡ node_of_pod i svc pod ∷ present_nodes answer sts svc rounds (suc i)
  present_nodes-found rounds i pod e = ground arith

  present_nodes-missing :
      (rounds i : ℕ) (e : Error)
      → answer (pod_name sts i) ≡ err e
      → present_nodes answer sts svc (suc rounds) i ≡ present_nodes answer sts svc rounds (suc i)
  present_nodes-missing rounds i e p = ground arith

  -- Every pod of the set is there or is reported as not found.
  abbrev pub Benign : ℕ → Type 0
  Benign n = (i : ℕ) (e : Error) → i < n → answer (pod_name sts i) ≡ err e → K.is_not_found e ≡ true

  loop-Benign :
      (n rounds i : ℕ) (xs : List BitcoinNetworkNode) (w : K.World)
      → i + rounds ≡ n
      → Benign n
      → ((loop rounds i (to_slice xs) w).result
          ≡ some (some (to_slice (xs ++ present_nodes answer sts svc rounds i))))
        × ((loop rounds i (to_slice xs) w).calls ≡ [])
  loop-Benign n zero i xs w h b =
      (unfold collect_nodes in (rw (append-nil xs)), unfold collect_nodes in refl)
  loop-Benign n (suc rounds) i xs w h b =
      by_answer (answer (pod_name sts i)) refl
        (λ ys w'. loop-Benign n rounds (suc i) ys w' (omega arith) b)
    where
      w₁ : K.World
      w₁ = (S.get (pod_name sts i) w).1

      by_answer :
          (r : Result Pod)
          → answer (pod_name sts i) ≡ r
          → ((ys : List BitcoinNetworkNode) (w' : K.World)
              → ((loop rounds (suc i) (to_slice ys) w').result
                  ≡ some (some (to_slice (ys ++ present_nodes answer sts svc rounds (suc i)))))
                × ((loop rounds (suc i) (to_slice ys) w').calls ≡ []))
          → ((loop (suc rounds) i (to_slice xs) w).result
              ≡ some (some (to_slice (xs ++ present_nodes answer sts svc (suc rounds) i))))
            × ((loop (suc rounds) i (to_slice xs) w).calls ≡ [])
      by_answer (ok pod) e ih =
          let x = node_of_pod i svc pod in
          rw
            (
              loop-found rounds i (to_slice xs) w pod e,
              append-to_slice xs x,
              present_nodes-found rounds i pod e,
            )
            (rw (append_assoc xs (x ∷ []) (present_nodes answer sts svc rounds (suc i))) at
              (ih (xs ++ x ∷ []) w₁))
      by_answer (err f) e ih =
          rw
            (
              loop-missing rounds i (to_slice xs) w f e (b i f (omega arith) e),
              present_nodes-missing rounds i f e,
            )
            (ih xs w₁)

  -- Some pod of the set cannot be read.
  loop-fails :
      (k rounds i : ℕ) (acc : Slice BitcoinNetworkNode) (w : K.World) (e : Error)
      → i ≤ k
      → k < i + rounds
      → answer (pod_name sts k) ≡ err e
      → K.is_not_found e ≡ false
      → ((loop rounds i acc w).result ≡ some none) × (unlogged (loop rounds i acc w).calls ≡ [])
  loop-fails k zero i acc w e a b p q = absurd (omega arith)
  loop-fails k (suc rounds) i acc w e a b p q =
      by_answer (answer (pod_name sts i)) refl
        (λ ne acc'. loop-fails k rounds (suc i) acc' w₁ e (omega arith) (omega arith) p q)
    where
      w₁ : K.World
      w₁ = (S.get (pod_name sts i) w).1

      by_answer :
          (r : Result Pod)
          → answer (pod_name sts i) ≡ r
          → (i ≢ k
              → (acc' : Slice BitcoinNetworkNode)
              → ((loop rounds (suc i) acc' w₁).result ≡ some none)
                × (unlogged (loop rounds (suc i) acc' w₁).calls ≡ []))
          → ((loop (suc rounds) i acc w).result ≡ some none)
            × (unlogged (loop (suc rounds) i acc w).calls ≡ [])
      by_answer (ok pod) f ih = rw (loop-found rounds i acc w pod f) (
          ih (λ same. cc (ap (λ j. answer (pod_name sts j)) same))
            (append acc (node_of_pod i svc pod)))
      by_answer (err x) f ih = elim (Bool-cases (K.is_not_found x)) [
        | inl t ↦
            rw (loop-missing rounds i acc w x f t)
              (ih (λ same. cc (ap (λ j. answer (pod_name sts j)) same)) acc)
        | inr t ↦ loop-failed rounds i acc w x f t
      ]

module _ (K : Cluster) (network : BitcoinNetwork) (sts svc : String) (answer : String → Result Pod)
    (S : StableCache K network.meta.namespace answer) where
  -- What the status is to be.
  abbrev pub expected_nodes : Slice BitcoinNetworkNode
  expected_nodes = to_slice (present_nodes answer sts svc (pos_part network.spec.nodes) 0)

  store_status-calls :
      (nodes : Slice BitcoinNetworkNode) (w : K.World)
      → ((store_status K network nodes w).result ≡ some tt)
        × (unlogged (store_status K network nodes w).calls
            ≡ update_status network.meta.namespace
                (record network { status = record { nodes = nodes } })
              ∷ [])
  unfolding store_status
  store_status-calls nodes w = ground arith

  -- If each of the pods asked for is in the cache or reported as not found, the list has the nodes
  -- of the pods that are there, in order, and is nil if there are none. It is stored as the status
  -- of the network in one `UpdateStatus`, which changes nothing else of the network, and nothing
  -- more is done.
  pub update_network_status-present :
      (w : K.World)
      → Benign K network.meta.namespace sts svc answer S (pos_part network.spec.nodes)
      → ((update_network_status K network sts svc w).result ≡ some expected_nodes)
        × (unlogged (update_network_status K network sts svc w).calls
            ≡ update_status network.meta.namespace
                (record network { status = record { nodes = expected_nodes } })
              ∷ [])
  unfolding update_network_status
  update_network_status-present w b =
      let run =
        loop-Benign K network.meta.namespace sts svc answer S (pos_part network.spec.nodes)
          (pos_part network.spec.nodes) 0 [] w (omega arith) b in
      let w' =
        (collect_nodes K network.meta.namespace sts svc (pos_part network.spec.nodes) 0 nil_slice
          w).world in
      ground (arith, S.has_lister, run.0, run.1, store_status-calls expected_nodes w')

  -- If one of the pods asked for can be neither found nor reported as missing, the result is nil
  -- and the status is not written.
  pub update_network_status-unreadable :
      (w : K.World) (k : ℕ) (e : Error)
      → k < pos_part network.spec.nodes
      → answer (pod_name sts k) ≡ err e
      → K.is_not_found e ≡ false
      → ((update_network_status K network sts svc w).result ≡ some nil_slice)
        × (unlogged (update_network_status K network sts svc w).calls ≡ [])
  unfolding update_network_status
  update_network_status-unreadable w k e small p q =
      let run =
        loop-fails K network.meta.namespace sts svc answer S k (pos_part network.spec.nodes) 0
          nil_slice w e (omega arith) (omega arith) p q in
      let failed =
        collect_nodes K network.meta.namespace sts svc (pos_part network.spec.nodes) 0 nil_slice
          w in
      ground (arith, S.has_lister, run.0, run.1, append-nil failed.calls)
