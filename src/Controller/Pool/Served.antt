-- ===== src/Controller/Pool/Served.antt =====
-- How a key that waits comes to a worker.
use bitcoin_controller.Base.{
  ◌≡◌, refl, ap, sym, subst, length, ◌∙◌, ℕ, String, zero, suc, ◌<◌, ◌≤◌, ◌⊎◌, inl, inr, true,
  false, some, Bool-cases, arith,
}
use bitcoin_controller.Kube.{ObjectMeta, AnyObject, object}
use bitcoin_controller.Apis.{BitcoinNetwork}
use bitcoin_controller.Client.{BitcoinClient, ok}
use bitcoin_controller.Cluster.{Cluster, RefersToOwner, HasKey}
use bitcoin_controller.Effects.{Item, key_item}
use bitcoin_controller.Controller.Create.{new_stateful_set, new_headless_service}
use bitcoin_controller.Controller.Recon.Outcome.{HasListers, DefaultsReplicas}
use bitcoin_controller.Controller.Queue.{process_item, update_object}
use bitcoin_controller.Controller.Pool.{
  item_eqb, WorkQueue, update, play, idle, working, take, object_updated, Pool, turn, notify, Steps,
  later, start,
}
use bitcoin_controller.Controller.Pool.Exclusive.{IsAtWork}
use bitcoin_controller.Controller.Pool.Shared.{item_eqb_iff, Documented}
use bitcoin_controller.Controller.Pool.Kept.{takes, update_object-kept}
use bitcoin_controller.Controller.Pool.Settled.{Settled, carry, Steps-Settled}
use bitcoin_controller.Controller.Pool.Drained.{Steps-Alive, finish, Rested, rest_all}

-- What client-go documents as fair: an item that waits and is not being processed is handed out after
-- those that are ahead of it.
pub record Fair (Q : WorkQueue) : Type 0 where
  pub ahead : Q.State → Item → ℕ
  pub hands :
      (q : Q.State) (x : Item)
      → Q.is_waiting q x ≡ true
      → Q.is_processing q x ≡ false
      → (item : Item) × (q' : Q.State) × (Q.get q ≡ some ((item, false), q'))
        × ((item ≡ x) ⊎ (suc (ahead q' x) ≤ ahead q x))
  pub done_ahead :
      (q : Q.State) (item x : Item)
      → Q.is_waiting q x ≡ true
      → Q.is_processing q x ≡ false
      → ahead (Q.done item q) x ≤ ahead q x

-- `n` workers go on, and one of them gets the item, and has not yet made a call about it.
pub record Served (Q : WorkQueue) (K : Cluster) {Json : Type 0} (R : BitcoinClient K.World Json)
    (n : ℕ) (t : Pool Q K R) (x : Item) : Type 0 where
  pub after : Pool Q K R
  pub steps : Steps Q K R n t after
  pub worker : ℕ
  pub is_worker : worker < n
  pub world : K.World
  pub has_item : after.place worker ≡ working x world 0

module _ (Q : WorkQueue) (D : Documented Q) (F : Fair Q) (K : Cluster) {Json : Type 0}
    (R : BitcoinClient K.World Json) (H : HasListers K) (E : DefaultsReplicas K) where
  module _ (n : ℕ) (l : 0 < n) (t : Pool Q K R) (w : K.World) (x : Item) where
    -- When the first worker has taken another item and left it again, this one still waits, is not
    -- being processed, and nothing has come before it.
    passed :
        (item : Item) (q q' q'' : Q.State)
        → Q.get q ≡ some ((item, false), q')
        → item_eqb x item ≡ false
        → Q.is_waiting q x ≡ true
        → Q.is_processing q x ≡ false
        → (q'' ≡ q') ⊎ (q'' ≡ Q.done item q')
        → (Q.is_waiting q'' x ≡ true)
          × (Q.is_processing q'' x ≡ false)
          × (F.ahead q'' x ≤ F.ahead q' x)
    passed item q q' q'' g other waits quiet played = elim played [
      | inl e ↦ (
        ap (λ u. Q.is_waiting u x) e ∙ waits',
        ap (λ u. Q.is_processing u x) e ∙ quiet',
        subst (λ u. F.ahead u x ≤ F.ahead q' x) (sym e) (omega arith),
      )
      | inr e ↦ (
        ap (λ u. Q.is_waiting u x) e ∙ D.done_waiting q' item x ∙ waits',
        ap (λ u. Q.is_processing u x) e ∙ ground (arith, D.done_processing q' item x, quiet'),
        subst (λ u. F.ahead u x ≤ F.ahead q' x) (sym e) (F.done_ahead q' item x waits' quiet'),
      )
    ]
      where
        waits' : Q.is_waiting q' x ≡ true
        waits' = ground (arith, D.get_waiting q q' item x g, other, waits)

        quiet' : Q.is_processing q' x ≡ false
        quiet' = ground (arith, D.get_processing q q' item x g, other, quiet)

    -- The first worker takes items until it gets this one.
    serve :
        (rounds : ℕ) (s : Pool Q K R)
        → Steps Q K R n t s
        → F.ahead s.queue x < rounds
        → s.place 0 ≡ idle
        → Q.is_waiting s.queue x ≡ true
        → Q.is_processing s.queue x ≡ false
        → Served Q K R n t x
    serve zero s r b free waits quiet = absurd (omega (arith, b))
    serve (suc rounds) s r b free waits quiet =
        let (item, q', g, order) = F.hands s.queue x waits quiet in
        elim (Bool-cases (item_eqb x item)) [
          | inl same ↦ record {
            after = _;
            steps = later r (turn 0 l free (take w g));
            worker = 0;
            is_worker = l;
            world = w;
            has_item = ground (arith, same, item_eqb_iff x item);
          }
          | inr other ↦
              let taken : Pool Q K R = record {
                queue = q';
                place = update Q K R s.place 0 (working item w 0);
              } in
              let left =
                finish Q D K R H E n 0 l t item w (length (process_item K R item w).calls) taken 0
                  (later r (turn 0 l free (take w g))) refl (omega arith) in
              let (waits', quiet', ahead') =
                passed item s.queue q' left.after.queue g other waits quiet left.queue in
              serve rounds left.after left.steps
                (ground (arith, order, other, item_eqb_iff x item, ahead', b)) left.free waits'
                quiet'
        ]

  -- When the stateful set or the service that was created for a network changes, in whatever state the
  -- workers and the handlers have brought the pool to, from a queue on of which nothing was being
  -- processed: as long as the key of the network has not been handed out since, the workers can go
  -- on, whatever world they find, so that one of them gets it. There is a worker, the cache has the
  -- network, the queue has not been shut down and does what is documented of it, there is a pod
  -- lister for every namespace, and every stateful set that is handed out has its replicas.
  pub update_object-served :
      RefersToOwner K
      → (network cached : BitcoinNetwork) (sts svc : String) (old : AnyObject) (m : ObjectMeta)
        (w w' : K.World)
      → (m ≡ (new_stateful_set K network sts svc).meta)
        ⊎ (m ≡ (new_headless_service K network svc).meta)
      → (K.get_network network.meta.namespace network.meta.name w).0 ≡ ok cached
      → (k : HasKey K cached.meta) (n : ℕ) → 0 < n
      → {q : Q.State} {s t : Pool Q K R} → ((x : Item) → Q.is_processing q x ≡ false)
      → Q.is_shut_down s.queue ≡ false
      → (before : Steps Q K R n (start Q K R q) s)
      → (r : Steps Q K R n
          (record s { queue = play Q (update_object K old (object m) w).calls s.queue })
          t)
      → takes Q K R r (key_item k.key) ≡ false
      → Served Q K R n t (key_item k.key)
  update_object-served L network cached sts svc old m w w' created e k n l {q} {s} {t} free
        open_queue before r f =
      serve n l t w' x (suc (F.ahead rested.after.queue x)) rested.after rested.steps (omega arith)
        (rested.at_rest 0 l) (rested.waiting x ∙ waits) quiet
    where
      x : Item
      x = key_item k.key

      notified : Pool Q K R
      notified = record s { queue = play Q (update_object K old (object m) w).calls s.queue }

      so_far : Steps Q K R n (start Q K R q) notified
      so_far = later before (notify (object_updated old (object m) w))

      waits : Q.is_waiting t.queue x ≡ true
      waits =
          update_object-kept Q K R D L network cached sts svc old m w created e k n s t open_queue r
            f

      rested : Rested Q D K R H E n n t
      rested =
          rest_all Q D K R H E n t
            (Steps-Alive Q D K R H E (Steps-Alive Q D K R H E (λ i h. cc) so_far) r) n (omega arith)

      settled : Settled Q D K R H E n rested.after
      settled =
          carry Q D K R H E (carry Q D K R H E (Steps-Settled Q D K R H E free so_far) r)
            rested.steps

      quiet : Q.is_processing rested.after.queue x ≡ false
      quiet = elim (Bool-cases (Q.is_processing rested.after.queue x)) [
        | inr g ↦ g
        | inl g ↦ elim (settled x g) [
          | inl (i, m, h) ↦ absurd (subst (λ p. IsAtWork Q D K R p x) (rested.at_rest i m) h)
          | inr h ↦ absurd (ground (arith, h, k.key_splits))
        ]
      ]
