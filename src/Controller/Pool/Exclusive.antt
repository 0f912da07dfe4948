-- ===== src/Controller/Pool/Exclusive.antt =====
-- Which worker has which item.
use bitcoin_controller.Base.{
  ◌≡◌, ◌≢◌, ap, sym, subst, ◌∙◌, ℕ, suc, nat_eqb, true, false, [], ◌∷◌, some, ◌⊎◌, inl, inr,
  Bool-cases, arith,
}
use bitcoin_controller.Client.{BitcoinClient}
use bitcoin_controller.Cluster.{Cluster}
use bitcoin_controller.Effects.{Item, Call}
use bitcoin_controller.Controller.Pool.{
  WorkQueue, next_call, calls, play, Place, idle, working, returned, crashed, Move, take, stop,
  again, leave, crash, Pool, update, Step, turn, notify, Steps, here, later, start,
}
use bitcoin_controller.Controller.Pool.Shared.{item_eqb_iff, Documented, play-Handled, play-call}

module _ (Q : WorkQueue) (D : Documented Q) (K : Cluster) {Json : Type 0}
    (R : BitcoinClient K.World Json) where
  -- A worker has the item, and has not yet made its last call about it.
  abbrev pub IsAtWork : Place K.World → Item → Type 0
  IsAtWork (working item w k) x = (item ≡ x) × (c : Call) × (next_call Q K R item w k ≡ some c)
  IsAtWork p x = ⊥

  -- The queue has every item that a worker is at work on as one that is being processed, and no two
  -- workers are at work on the same item.
  pub record Assigned (s : Pool Q K R) : Type 0 where
    pub busy : (i : ℕ) (x : Item) → IsAtWork (s.place i) x → Q.is_processing s.queue x ≡ true
    pub alone : (i j : ℕ) (x : Item) → IsAtWork (s.place i) x → IsAtWork (s.place j) x → i ≡ j

  start-Assigned : (q : Q.State) → Assigned (start Q K R q)
  start-Assigned q = record { busy = λ i x a. absurd a; alone = λ i j x a b. absurd a }

  pub update_cases :
      (f : ℕ → Place K.World) (i j : ℕ) (p : Place K.World)
      → ((i ≡ j) × (update Q K R f i p j ≡ p)) ⊎ ((i ≢ j) × (update Q K R f i p j ≡ f j))
  update_cases f i j p = elim (Bool-cases (nat_eqb i j)) [
    | inl e ↦ inl (ground (arith, e), ground (arith, e))
    | inr e ↦ inr (ground (arith, e), ground (arith, e))
  ]

  module _ (s : Pool Q K R) (a : Assigned s) (i : ℕ) where
    -- Worker `i` goes to another place, where it is at work on nothing that it was not at work on
    -- before, and what any worker is at work on is being processed.
    moved-Assigned :
        (p : Place K.World) (q : Q.State)
        → ((x : Item) → IsAtWork p x → IsAtWork (s.place i) x × (Q.is_processing q x ≡ true))
        → ((j : ℕ) (x : Item) → i ≢ j → IsAtWork (s.place j) x → Q.is_processing q x ≡ true)
        → Assigned (record { queue = q; place = update Q K R s.place i p })
    moved-Assigned p q mine keeps = record {
      busy = λ j x e. elim (update_cases s.place i j p) [
        | inl (f, g) ↦ (mine x (subst (λ y. IsAtWork y x) g e)).1
        | inr (f, g) ↦ keeps j x f (subst (λ y. IsAtWork y x) g e)
      ];
      alone = λ j k x e f. a.alone j k x (was j x e) (was k x f);
    }
      where
        was : (j : ℕ) (x : Item) → IsAtWork (update Q K R s.place i p j) x → IsAtWork (s.place j) x
        was j x e = elim (update_cases s.place i j p) [
          | inl (f, g) ↦
              subst (λ y. IsAtWork (s.place y) x) f (mine x (subst (λ y. IsAtWork y x) g e)).0
          | inr (f, g) ↦ subst (λ y. IsAtWork y x) g e
        ]

    take-Assigned :
        (item : Item) (w : K.World) (q : Q.State)
        → Q.get s.queue ≡ some ((item, false), q)
        → Assigned (record { queue = q; place = update Q K R s.place i (working item w 0) })
    take-Assigned item w q g = record {
      busy = λ j x e. elim (whose j x e) [
        | inl (f, h) ↦
            ground (arith, D.get_processing s.queue q item x g, item_eqb_iff x item, sym h)
        | inr (f, h) ↦ ground (arith, D.get_processing s.queue q item x g, a.busy j x h)
      ];
      alone = λ j k x e f. elim (whose j x e) [
        | inl (u, h) ↦ elim (whose k x f) [
          | inl (v, h') ↦ sym u ∙ v
          | inr (v, h') ↦ taken x h (a.busy k x h')
        ]
        | inr (u, h) ↦ elim (whose k x f) [
          | inl (v, h') ↦ taken x h' (a.busy j x h)
          | inr (v, h') ↦ a.alone j k x h h'
        ]
      ];
    }
      where
        whose :
            (j : ℕ) (x : Item)
            → IsAtWork (update Q K R s.place i (working item w 0) j) x
            → ((i ≡ j) × (item ≡ x)) ⊎ ((i ≢ j) × IsAtWork (s.place j) x)
        whose j x e = elim (update_cases s.place i j (working item w 0)) [
          | inl (f, h) ↦ inl (f, (subst (λ y. IsAtWork y x) h e).0)
          | inr (f, h) ↦ inr (f, subst (λ y. IsAtWork y x) h e)
        ]

        taken : {A : Type 0} (x : Item) → item ≡ x → Q.is_processing s.queue x ≡ true → A
        taken x h b =
            absurd (
              ground (arith, D.get_idle s.queue q item g, ap (λ y. Q.is_processing s.queue y) h, b))

    call-Assigned :
        (item : Item) (w : K.World) (k : ℕ) (c : Call)
        → s.place i ≡ working item w k
        → next_call Q K R item w k ≡ some c
        → Assigned (record {
          queue = play Q (c ∷ []) s.queue;
          place = update Q K R s.place i (working item w (suc k));
        })
    call-Assigned item w k c e f = elim (play-call Q K R item w k c s.queue f) [
      | inl g ↦
          moved-Assigned (working item w (suc k)) _
            (λ x m. (at_work x m.0, ap (λ q. Q.is_processing q x) g ∙ a.busy i x (at_work x m.0)))
            (λ j x ne m. ap (λ q. Q.is_processing q x) g ∙ a.busy j x m)
      | inr (g, h) ↦
          moved-Assigned (working item w (suc k)) _ (λ x m. absurd (ground (arith, m.2, h)))
            (λ j x ne m.
              ap (λ q. Q.is_processing q x) g
              ∙ ground (
                arith,
                D.done_processing s.queue item x,
                a.busy j x m,
                item_eqb_iff x item,
                other j x ne m,
              ))
    ]
      where
        at_work : (x : Item) → item ≡ x → IsAtWork (s.place i) x
        at_work x m = subst (λ p. IsAtWork p x) (sym e) (m, c, f)

        other : (j : ℕ) (x : Item) → i ≢ j → IsAtWork (s.place j) x → x ≢ item
        other j x ne m h = ne (a.alone i j x (at_work x (sym h)) m)

    Move-Assigned :
        {p p' : Place K.World} {q' : Q.State}
        → s.place i ≡ p
        → Move Q K R s.queue p q' p'
        → Assigned (record { queue = q'; place = update Q K R s.place i p' })
    Move-Assigned e (take {item} {q'} w g) = take-Assigned item w q' g
    Move-Assigned e (stop {item} {q'} g) =
        moved-Assigned returned q' (λ x m. absurd m)
          (λ j x ne m. (D.stop_keeps s.queue q' item x g).0 ∙ a.busy j x m)
    Move-Assigned e again = moved-Assigned idle s.queue (λ x m. absurd m) (λ j x ne m. a.busy j x m)
    Move-Assigned e (calls {item} {w} {k} c f) = call-Assigned item w k c e f
    Move-Assigned e (leave f g) =
        moved-Assigned idle s.queue (λ x m. absurd m) (λ j x ne m. a.busy j x m)
    Move-Assigned e (crash f g) =
        moved-Assigned crashed s.queue (λ x m. absurd m) (λ j x ne m. a.busy j x m)

  Step-Assigned : {n : ℕ} {s t : Pool Q K R} → Assigned s → Step Q K R n s t → Assigned t
  Step-Assigned {s = s} a (turn i l e m) = Move-Assigned s a i e m
  Step-Assigned {s = s} a (notify {cs} h) = elim (play-Handled Q K R cs s.queue h) [
    | inl g ↦ record {
      busy = λ i x e. ap (λ q. Q.is_processing q x) g ∙ a.busy i x e;
      alone = a.alone;
    }
    | inr (key, g) ↦ record {
      busy = λ i x e.
          ap (λ q. Q.is_processing q x) g
          ∙ D.add_processing s.queue (Item.key_item key) x
          ∙ a.busy i x e;
      alone = a.alone;
    }
  ]

  Steps-Assigned : {n : ℕ} {s t : Pool Q K R} → Assigned s → Steps Q K R n s t → Assigned t
  Steps-Assigned a here = a
  Steps-Assigned a (later r st) = Step-Assigned (Steps-Assigned a r) st

  -- However the calls of the workers and the event handlers are interleaved, no two workers are at
  -- work on the same item at the same time, where a worker is at work on an item until it has made its
  -- last call about it, if the queue does what is documented of it; and the queue has what a worker
  -- is at work on as an item that is being processed.
  pub Steps-alone :
      {n : ℕ} {q : Q.State} {t : Pool Q K R}
      → Steps Q K R n (start Q K R q) t
      → (i j : ℕ) (x : Item) → IsAtWork (t.place i) x
      → IsAtWork (t.place j) x
      → (i ≡ j) × (Q.is_processing t.queue x ≡ true)
  Steps-alone {q = q} r i j x e f =
      let a = Steps-Assigned (start-Assigned q) r in (a.alone i j x e f, a.busy i x e)
