-- ===== src/Tests/Served.antt =====
-- The workers go on, on a queue that is two lists.
use bitcoin_controller.Base.{
  ◌≡◌, ◌≢◌, refl, ℕ, suc, ◌<◌, ◌≤◌, ◌⊎◌, true, false, List, [], ◌∷◌, none, some, Option-cases,
  Bool-cases, inl, inr, arith, if◌then◌else◌,
}
use bitcoin_controller.Kube.{not_object}
use bitcoin_controller.Effects.{Item}
use bitcoin_controller.Controller.Create.{new_stateful_set}
use bitcoin_controller.Controller.Queue.Workers.{is_finished}
use bitcoin_controller.Controller.Pool.{item_eqb, take, turn, idle, Pool, Steps, here, later, start}
use bitcoin_controller.Controller.Pool.Shared.{item_eqb_iff}
use bitcoin_controller.Controller.Pool.Kept.{takes}
use bitcoin_controller.Controller.Pool.Drained.{Steps-drain}
use bitcoin_controller.Controller.Pool.Served.{Fair, Served, update_object-served}
use bitcoin_controller.Tests.Lab.{cluster, client, network, network-HasKey, cluster-RefersToOwner}
use bitcoin_controller.Tests.Recon.{listers, replicas}
use bitcoin_controller.Tests.Pool.{
  Lists, holds, drop, pick, handed, pick-free, queue, queue-Documented, net, both_taken, takes_both,
  reconciling, changed,
}

-- How many items stand before this one.
abbrev index : Item → List Item → ℕ
index x [] = 0
index x (y ∷ ys) = let rest = index x ys in if item_eqb x y then 0 else suc rest

index-drop : (x y : Item) (xs : List Item) → x ≢ y → index x (drop y xs) ≤ index x xs
index-drop x y [] ne = omega arith
index-drop x y (z ∷ zs) ne =
    ground (arith, index-drop x y zs ne, item_eqb_iff x z, item_eqb_iff y z, ne)

picks :
    (x : Item) (xs busy : List Item) → holds x xs ≡ true → pick xs busy ≡ none → holds x busy ≡ true
picks x [] busy h e = cc
picks x (y ∷ ys) busy h e = ground (arith, h, e, picks x ys busy, item_eqb_iff x y)

index-pick :
    (x y : Item) (xs busy : List Item)
    → holds x busy ≡ false
    → pick xs busy ≡ some y
    → x ≢ y
    → suc (index x (drop y xs)) ≤ index x xs
index-pick x y [] busy h e ne = cc
index-pick x y (z ∷ zs) busy h e ne = ground (
  arith,
  h,
  e,
  ne,
  index-pick x y zs busy h,
  index-drop x y zs ne,
  item_eqb_iff x z,
  item_eqb_iff y z,
  pick-free zs busy y,
)

queue-hands :
    (q : Lists) (x : Item)
    → holds x q.waiting ≡ true
    → holds x q.processing ≡ false
    → (item : Item) × (q' : Lists) × (queue.get q ≡ some ((item, false), q'))
      × ((item ≡ x) ⊎ (suc (index x q'.waiting) ≤ index x q.waiting))
queue-hands q x waits quiet = elim (Option-cases (pick q.waiting q.processing)) [
  | inl e ↦ absurd (ground (arith, picks x q.waiting q.processing waits e, quiet))
  | inr (y, e) ↦ (
    y,
    (handed q y).1,
    ground (arith, e),
    elim (Bool-cases (item_eqb x y)) [
      | inl f ↦ inl (ground (arith, f, item_eqb_iff x y))
      | inr f ↦ inr (
          index-pick x y q.waiting q.processing quiet e
            (λ g. ground (arith, g, f, item_eqb_iff x y)))
    ],
  )
]

queue-Fair : Fair queue
queue-Fair = record {
  ahead = λ q x. index x q.waiting;
  hands = queue-hands;
  done_ahead = λ q item x e f. omega arith;
}

Steps-drain_example :
    (u : Pool queue cluster client) × Steps queue cluster client 2 both_taken u
    × ((i : ℕ) → i < 2 → u.place i ≡ idle)
    × ((x : Item) → holds x u.queue.waiting ≡ holds x both_taken.queue.waiting)
    × ((x : Item) → holds x u.queue.processing ≡ true → is_finished cluster x ≡ false)
Steps-drain_example =
    Steps-drain queue queue-Documented cluster client listers replicas (λ x. refl) takes_both

abbrev one_key : Lists
one_key = record { waiting = net ∷ []; processing = [] }

abbrev takes_one : Steps queue cluster client 2 (start queue cluster client one_key) reconciling
takes_one = later here (turn 0 (omega arith) refl (take [] refl))

update_object-served_example : Served queue cluster client 2 changed net
unfolding takes
update_object-served_example =
    update_object-served queue queue-Documented queue-Fair cluster client listers replicas
      cluster-RefersToOwner network network "net-sts" "net-svc" not_object
      (new_stateful_set cluster network "net-sts" "net-svc").meta [] [] (inl refl) refl
      network-HasKey 2 (omega arith) (λ x. refl) refl takes_one here refl
