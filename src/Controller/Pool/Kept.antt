-- ===== src/Controller/Pool/Kept.antt =====
-- Which keys are handed out again, and which are not.
use bitcoin_controller.Base.{
  ◌≡◌, refl, ap, sym, some, subst, ◌∙◌, ℕ, String, Bool, true, false, ◌||◌, ◌⊎◌, inl, inr,
  Bool-cases, [], ◌∷◌, arith,
}
use bitcoin_controller.Kube.{ObjectMeta, AnyObject, object}
use bitcoin_controller.Apis.{BitcoinNetwork}
use bitcoin_controller.Client.{BitcoinClient, Error, ok, err}
use bitcoin_controller.Cluster.{Cluster, RefersToOwner, HasKey}
use bitcoin_controller.Effects.{Item, Call, key_item, queue_add}
use bitcoin_controller.Controller.Create.{new_stateful_set, new_headless_service}
use bitcoin_controller.Controller.Queue.{update_object}
use bitcoin_controller.Controller.Queue.Ownership.{update_object-created}
use bitcoin_controller.Controller.Pool.{
  item_eqb, WorkQueue, next_call, calls, play, Place, Move, take, stop, again, leave, crash, Pool,
  Step, turn, notify, Steps, here, later,
}
use bitcoin_controller.Controller.Pool.Shared.{
  item_eqb_iff, Documented, play-Handled, play-call, play-malformed,
}

module _ (Q : WorkQueue) (K : Cluster) {Json : Type 0} (R : BitcoinClient K.World Json) where
  -- Whether the item is handed out to a worker, in a step and on the way.
  abbrev move_takes : {q q' : Q.State} {p p' : Place K.World} → Move Q K R q p q' p' → Item → Bool
  move_takes (take {item} w e) x = item_eqb x item
  move_takes (stop e) x = false
  move_takes again x = false
  move_takes (calls c e) x = false
  move_takes (leave e f) x = false
  move_takes (crash e f) x = false

  abbrev step_takes : {n : ℕ} {s t : Pool Q K R} → Step Q K R n s t → Item → Bool
  step_takes (turn i l e m) x = move_takes m x
  step_takes (notify h) x = false

  unfoldable pub takes : {n : ℕ} {s t : Pool Q K R} → Steps Q K R n s t → Item → Bool
  takes here x = false
  takes (later r st) x = takes r x || step_takes st x

  module _ (D : Documented Q) (x : Item) where
    call_waits :
        (item : Item) (w : K.World) (k : ℕ) (c : Call) (q : Q.State)
        → next_call Q K R item w k ≡ some c
        → Q.is_waiting q x ≡ true
        → Q.is_waiting (play Q (c ∷ []) q) x ≡ true
    call_waits item w k c q f e = elim (play-call Q K R item w k c q f) [
      | inl g ↦ ap (λ u. Q.is_waiting u x) g ∙ e
      | inr (g, h) ↦ ap (λ u. Q.is_waiting u x) g ∙ D.done_waiting q item x ∙ e
    ]

    Move-waits :
        {q q' : Q.State} {p p' : Place K.World} (m : Move Q K R q p q' p')
        → Q.is_waiting q x ≡ true
        → move_takes m x ≡ false
        → Q.is_waiting q' x ≡ true
    Move-waits {q} {q'} (take {item} w g) e f = ground (arith, D.get_waiting q q' item x g, e, f)
    Move-waits {q} {q'} (stop {item} g) e f = (D.stop_keeps q q' item x g).1 ∙ e
    Move-waits again e f = e
    Move-waits {q} (calls {item} {w} {k} c g) e f = call_waits item w k c q g e
    Move-waits (leave g h) e f = e
    Move-waits (crash g h) e f = e

    Step-waits :
        {n : ℕ} {s t : Pool Q K R} (st : Step Q K R n s t)
        → Q.is_waiting s.queue x ≡ true
        → step_takes st x ≡ false
        → Q.is_waiting t.queue x ≡ true
    Step-waits (turn i l g m) e f = Move-waits m e f
    Step-waits {s = s} (notify {cs} h) e f = elim (play-Handled Q K R cs s.queue h) [
      | inl g ↦ ap (λ u. Q.is_waiting u x) g ∙ e
      | inr (key, g) ↦ ap (λ u. Q.is_waiting u x) g ∙ D.add_keeps s.queue (key_item key) x e
    ]

    -- What waits goes on waiting until it is handed out.
    pub Steps-waits :
        {n : ℕ} {s t : Pool Q K R} (r : Steps Q K R n s t)
        → Q.is_waiting s.queue x ≡ true
        → takes r x ≡ false
        → Q.is_waiting t.queue x ≡ true
    unfolding takes
    Steps-waits here e f = e
    Steps-waits (later r st) e f =
        Step-waits st (Steps-waits r e (ground (arith, f))) (ground (arith, f))

  module _ (D : Documented Q) (key : String) (e : Error) (bad : K.split_key key ≡ err e) where
    call_stays :
        (item : Item) (w : K.World) (k : ℕ) (c : Call) (q : Q.State)
        → next_call Q K R item w k ≡ some c
        → Q.is_processing q (key_item key) ≡ true
        → Q.is_processing (play Q (c ∷ []) q) (key_item key) ≡ true
    call_stays item w k c q f h = elim (Bool-cases (item_eqb (key_item key) item)) [
      | inl same ↦
          let is_key = (item_eqb_iff (key_item key) item).0 same in
          ap (λ u. Q.is_processing u (key_item key))
            (play-malformed Q K R key e w k c q bad
              (subst (λ x. next_call Q K R x w k ≡ some c) (sym is_key) f))
          ∙ h
      | inr other ↦ elim (play-call Q K R item w k c q f) [
        | inl g ↦ ap (λ u. Q.is_processing u (key_item key)) g ∙ h
        | inr (g, g') ↦
            ap (λ u. Q.is_processing u (key_item key)) g
            ∙ ground (arith, D.done_processing q item (key_item key), h, other)
      ]
    ]

    Move-stays :
        {q q' : Q.State} {p p' : Place K.World} (m : Move Q K R q p q' p')
        → Q.is_processing q (key_item key) ≡ true
        → (Q.is_processing q' (key_item key) ≡ true) × (move_takes m (key_item key) ≡ false)
    Move-stays {q} {q'} (take {item} w g) h = (
      ground (arith, D.get_processing q q' item (key_item key) g, h),
      ground (arith, D.get_idle q q' item g, item_eqb_iff (key_item key) item, h),
    )
    Move-stays {q} {q'} (stop {item} g) h = ((D.stop_keeps q q' item (key_item key) g).0 ∙ h, refl)
    Move-stays again h = (h, refl)
    Move-stays {q} (calls {item} {w} {k} c g) h = (call_stays item w k c q g h, refl)
    Move-stays (leave f g) h = (h, refl)
    Move-stays (crash f g) h = (h, refl)

    Step-stays :
        {n : ℕ} {s t : Pool Q K R} (st : Step Q K R n s t)
        → Q.is_processing s.queue (key_item key) ≡ true
        → (Q.is_processing t.queue (key_item key) ≡ true) × (step_takes st (key_item key) ≡ false)
    Step-stays (turn i l g m) h = Move-stays m h
    Step-stays {s = s} (notify {cs} c) h = elim (play-Handled Q K R cs s.queue c) [
      | inl g ↦ (ap (λ u. Q.is_processing u (key_item key)) g ∙ h, refl)
      | inr (k, g) ↦ (
        ap (λ u. Q.is_processing u (key_item key)) g
            ∙ D.add_processing s.queue (key_item k) (key_item key)
            ∙ h,
        refl,
      )
    ]

    -- A key that cannot be split, once it has been handed out, is never marked as done, and never
    -- handed out again, whatever handlers add it once more.
    pub Steps-stays :
        {n : ℕ} {s t : Pool Q K R} (r : Steps Q K R n s t)
        → Q.is_processing s.queue (key_item key) ≡ true
        → (Q.is_processing t.queue (key_item key) ≡ true) × (takes r (key_item key) ≡ false)
    unfolding takes
    Steps-stays here h = (h, refl)
    Steps-stays (later r st) h =
        let before = Steps-stays r h in
        let now = Step-stays st before.0 in (now.0, ground (arith, before.1, now.1))

  -- When the stateful set or the service that was created for a network changes, the key of the
  -- network waits in the queue from then on, until it is handed out to a worker, whatever else the
  -- workers and the handlers do, and also if the network is being reconciled at that moment: the
  -- change is not forgotten. The cache has the network, and the queue has not been shut down.
  pub update_object-kept :
      Documented Q
      → RefersToOwner K
      → (network cached : BitcoinNetwork) (sts svc : String) (old : AnyObject) (m : ObjectMeta)
        (w : K.World)
      → (m ≡ (new_stateful_set K network sts svc).meta)
        ⊎ (m ≡ (new_headless_service K network svc).meta)
      → (K.get_network network.meta.namespace network.meta.name w).0 ≡ ok cached
      → (k : HasKey K cached.meta) (n : ℕ) (s t : Pool Q K R) → Q.is_shut_down s.queue ≡ false
      → (r : Steps Q K R n
          (record s { queue = play Q (update_object K old (object m) w).calls s.queue })
          t)
      → takes r (key_item k.key) ≡ false
      → Q.is_waiting t.queue (key_item k.key) ≡ true
  unfolding play
  update_object-kept D L network cached sts svc old m w created e k n s t open_queue r f =
      Steps-waits D (key_item k.key) r
        (ap (λ cs. Q.is_waiting (play Q cs s.queue) (key_item k.key)) (calls_added created)
          ∙ D.add_waits s.queue (key_item k.key) open_queue)
        f
    where
      calls_added :
          (m ≡ (new_stateful_set K network sts svc).meta)
            ⊎ (m ≡ (new_headless_service K network svc).meta)
          → (update_object K old (object m) w).calls ≡ queue_add k.key ∷ []
      calls_added (inl g) =
          ap (λ x. (update_object K old (object x) w).calls) g
          ∙ ap (λ run. run.calls) (update_object-created K L network cached sts svc old w e k).0
      calls_added (inr g) =
          ap (λ x. (update_object K old (object x) w).calls) g
          ∙ ap (λ run. run.calls) (update_object-created K L network cached sts svc old w e k).1
