-- ===== src/Controller/Pool/Settled.antt =====
-- What the queue has as being processed.
use bitcoin_controller.Base.{
  ◌≡◌, ◌≢◌, refl, ap, sym, subst, zero, suc, some, none, List, ◌++◌, Option-cases, ◌∙◌, ℕ, ◌<◌, ◌⊎◌,
  inl, inr, true, false, Bool-cases, arith, ◌∷◌, [],
}
use mathlib.Core.Option.{some-injective}
use bitcoin_controller.Client.{BitcoinClient}
use bitcoin_controller.Cluster.{Cluster}
use bitcoin_controller.Effects.{Item, Call, key_item, queue_done}
use bitcoin_controller.Controller.Recon.Outcome.{HasListers, DefaultsReplicas}
use bitcoin_controller.Controller.Queue.{process_item}
use bitcoin_controller.Controller.Queue.Touches.{process_item-shape}
use bitcoin_controller.Controller.Queue.Workers.{
  finished, finished-on_queue, is_finished, process_item-finished,
}
use bitcoin_controller.Controller.Pool.{
  item_eqb, WorkQueue, call_at, next_call, calls, play, Place, idle, working, returned, Move, take,
  stop, again, leave, crash, Pool, update, Step, turn, notify, Steps, here, later, start,
}
use bitcoin_controller.Controller.Pool.Exclusive.{IsAtWork, update_cases}
use bitcoin_controller.Controller.Pool.Shared.{item_eqb_iff, Documented, play-Handled, play-call}

call_at-first : (cs : List Call) (d : Call) → (c : Call) × (call_at (cs ++ d ∷ []) 0 ≡ some c)
unfolding call_at
call_at-first [] d = (d, refl)
call_at-first (x ∷ cs) d = (x, refl)

call_at-end :
    (cs : List Call) (d : Call) (k : ℕ) (c : Call)
    → call_at (cs ++ d ∷ []) k ≡ some c
    → call_at (cs ++ d ∷ []) (suc k) ≡ none
    → c ≡ d
unfolding call_at
call_at-end [] d zero c e f = sym (some-injective _ _ e)
call_at-end [] d (suc k) c e f = cc
call_at-end (x ∷ cs) d zero c e f = let (y, g) = call_at-first cs d in absurd (ground (arith, f, g))
call_at-end (x ∷ cs) d (suc k) c e f = call_at-end cs d k c e f

module _ (Q : WorkQueue) (D : Documented Q) (K : Cluster) {Json : Type 0}
    (R : BitcoinClient K.World Json) (H : HasListers K) (F : DefaultsReplicas K) where
  -- The calls of a worker end with the one that it is done with the item, if that is no text or a key
  -- that splits.
  finished-shape :
      (item : Item) (w : K.World)
      → is_finished K item ≡ true
      → (before : List Call) × ((process_item K R item w).calls ≡ before ++ queue_done item ∷ [])
  finished-shape item w e =
      let (before, quiet, shape) = process_item-shape K R item w in
      elim shape [
        | inl f ↦
            let nothing =
              sym (process_item-finished K R H F item w).1
              ∙ ap finished f
              ∙ finished-on_queue before
              ∙ ap finished quiet in
            absurd (ground (arith, nothing, e))
        | inr f ↦ (before, f)
      ]

  begins :
      (item : Item) (w : K.World)
      → is_finished K item ≡ true
      → (c : Call) × (next_call Q K R item w 0 ≡ some c)
  begins item w e =
      let (before, f) = finished-shape item w e in
      let (c, g) = call_at-first before (queue_done item) in (c, ap (λ cs. call_at cs 0) f ∙ g)

  ends :
      (item : Item) (w : K.World) (k : ℕ) (c : Call)
      → is_finished K item ≡ true
      → next_call Q K R item w k ≡ some c
      → next_call Q K R item w (suc k) ≡ none
      → c ≡ queue_done item
  ends item w k c e g h =
      let (before, f) = finished-shape item w e in
      call_at-end before (queue_done item) k c (sym (ap (λ cs. call_at cs k) f) ∙ g)
        (sym (ap (λ cs. call_at cs (suc k)) f) ∙ h)

  -- What is being processed has a worker that is at work on it, or is a key that cannot be split.
  abbrev pub Settled : ℕ → Pool Q K R → Type 0
  Settled n s =
      (x : Item)
      → Q.is_processing s.queue x ≡ true
      → ((i : ℕ) × (i < n) × IsAtWork Q D K R (s.place i) x) ⊎ (is_finished K x ≡ false)

  module _ (n : ℕ) (s : Pool Q K R) (a : Settled n s) (i : ℕ) where
    abbrev Kept : Place K.World → Item → Type 0
    Kept p x =
        ((j : ℕ) × (j < n) × IsAtWork Q D K R (update Q K R s.place i p j) x)
        ⊎ (is_finished K x ≡ false)

    -- Worker `i` goes somewhere.
    moves_on :
        (p : Place K.World) (x : Item)
        → (IsAtWork Q D K R (s.place i) x → Kept p x)
        → Q.is_processing s.queue x ≡ true
        → Kept p x
    moves_on p x mine h = elim (a x h) [
      | inl (j, l, m) ↦ elim (update_cases Q D K R s.place i j p) [
        | inl (f, g) ↦ mine (subst (λ k. IsAtWork Q D K R (s.place k) x) (sym f) m)
        | inr (f, g) ↦ inl (j, l, subst (λ y. IsAtWork Q D K R y x) (sym g) m)
      ]
      | inr f ↦ inr f
    ]

    -- Worker `i` is at work on the item, where it goes.
    goes :
        (item : Item) (w : K.World) (k : ℕ) (c : Call) (x : Item)
        → i < n
        → item ≡ x
        → next_call Q K R item w k ≡ some c
        → Kept (working item w k) x
    goes item w k c x l e f = elim (update_cases Q D K R s.place i i (working item w k)) [
      | inl (g, h) ↦ inl (i, l, subst (λ y. IsAtWork Q D K R y x) (sym h) (e, c, f))
      | inr (g, h) ↦ absurd (g refl)
    ]

    call-Settled :
        (item : Item) (w : K.World) (k : ℕ) (c : Call) (x : Item)
        → i < n
        → s.place i ≡ working item w k
        → next_call Q K R item w k ≡ some c
        → Q.is_processing (play Q (c ∷ []) s.queue) x ≡ true
        → Kept (working item w (suc k)) x
    unfolding play
    call-Settled item w k c x l e f h = elim (Option-cases (next_call Q K R item w (suc k))) [
      | inr (c', g) ↦
          moves_on (working item w (suc k)) x (λ m. goes item w (suc k) c' x l (is_item m) g) was
      | inl g ↦ elim (Bool-cases (is_finished K item)) [
        | inr u ↦
            moves_on (working item w (suc k)) x
              (λ m. inr (ap (is_finished K) (sym (is_item m)) ∙ u)) was
        | inl u ↦
            let gone =
              sym (ap (λ y. Q.is_processing (play Q (y ∷ []) s.queue) x) (ends item w k c u f g))
              ∙ h in
            moves_on (working item w (suc k)) x (λ m. absurd (is_gone gone (is_item m))) was
      ]
    ]
      where
        is_item : IsAtWork Q D K R (s.place i) x → item ≡ x
        is_item m = (subst (λ p. IsAtWork Q D K R p x) e m).0

        was : Q.is_processing s.queue x ≡ true
        was = elim (play-call Q K R item w k c s.queue f) [
          | inl g ↦ sym (ap (λ q. Q.is_processing q x) g) ∙ h
          | inr (g, g') ↦
              ground
                (arith, D.done_processing s.queue item x, sym (ap (λ q. Q.is_processing q x) g) ∙ h)
        ]

        is_gone : Q.is_processing (play Q (queue_done item ∷ []) s.queue) x ≡ true → item ≢ x
        is_gone g m =
            ground (arith, D.done_processing s.queue item x, g, item_eqb_iff x item, sym m)

    Move-Settled :
        {p p' : Place K.World} {q' : Q.State}
        → i < n
        → s.place i ≡ p
        → Move Q K R s.queue p q' p'
        → Settled n (record { queue = q'; place = update Q K R s.place i p' })
    Move-Settled l e (take {item} {q'} w g) x h = elim (Bool-cases (item_eqb x item)) [
      | inl f ↦
          let same = (item_eqb_iff x item).0 f in
          elim (Bool-cases (is_finished K item)) [
            | inl u ↦ let (c, v) = begins item w u in goes item w 0 c x l (sym same) v
            | inr u ↦ inr (ap (is_finished K) same ∙ u)
          ]
      | inr f ↦
          moves_on (working item w 0) x (λ m. absurd (subst (λ p. IsAtWork Q D K R p x) e m))
            (ground (arith, D.get_processing s.queue q' item x g, h, f))
    ]
    Move-Settled l e (stop {item} {q'} g) x h =
        moves_on returned x (λ m. absurd (subst (λ p. IsAtWork Q D K R p x) e m))
          (sym (D.stop_keeps s.queue q' item x g).0 ∙ h)
    Move-Settled l e again x h =
        moves_on idle x (λ m. absurd (subst (λ p. IsAtWork Q D K R p x) e m)) h
    Move-Settled l e (calls {item} {w} {k} c f) x h = call-Settled item w k c x l e f h
    Move-Settled l e (leave f g) x h =
        moves_on idle x
          (λ m. let m' = subst (λ p. IsAtWork Q D K R p x) e m in absurd (ground (arith, m'.2, f)))
          h
    Move-Settled l e (crash {item} {w} f g) x h =
        absurd (ground (arith, (process_item-finished K R H F item w).0, g))

  Step-Settled : {n : ℕ} {s t : Pool Q K R} → Settled n s → Step Q K R n s t → Settled n t
  Step-Settled {n} {s} a (turn i l e m) x h = Move-Settled n s a i l e m x h
  Step-Settled {s = s} a (notify {cs} h) x k = elim (play-Handled Q K R cs s.queue h) [
    | inl g ↦ a x (sym (ap (λ q. Q.is_processing q x) g) ∙ k)
    | inr (key, g) ↦ a x (
        sym (D.add_processing s.queue (key_item key) x) ∙ sym (ap (λ q. Q.is_processing q x) g) ∙ k)
  ]

  pub carry : {n : ℕ} {s t : Pool Q K R} → Settled n s → Steps Q K R n s t → Settled n t
  carry a here = a
  carry a (later r st) = Step-Settled (carry a r) st

  -- However the calls of the workers and the handlers are interleaved, from a queue on of which nothing
  -- is being processed, if the queue does what is documented of it, there is a pod lister for every
  -- namespace, and every stateful set that is handed out has its replicas: what is being processed has
  -- a worker that has not yet made its last call about it, or is a key that cannot be split.
  pub Steps-Settled :
      {n : ℕ} {q : Q.State} {t : Pool Q K R}
      → ((x : Item) → Q.is_processing q x ≡ false)
      → Steps Q K R n (start Q K R q) t
      → (x : Item) → Q.is_processing t.queue x ≡ true
      → ((i : ℕ) × (i < n) × IsAtWork Q D K R (t.place i) x) ⊎ (is_finished K x ≡ false)
  Steps-Settled free r = carry (λ x e. absurd (ground (arith, free x, e))) r
