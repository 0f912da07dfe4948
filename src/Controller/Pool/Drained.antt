-- ===== src/Controller/Pool/Drained.antt =====
-- How the workers come to their rest.
use bitcoin_controller.Base.{
  ◌≡◌, ◌≢◌, refl, ◌∙◌, ℕ, zero, suc, ◌<◌, ◌≤◌, inl, inr, true, false, arith, ap, subst, ◌+◌, ◌⊎◌,
  length, List, [], ◌∷◌, some, none, Option-cases,
}
use bitcoin_controller.Client.{BitcoinClient}
use bitcoin_controller.Cluster.{Cluster}
use bitcoin_controller.Effects.{Call, Item}
use bitcoin_controller.Controller.Recon.Outcome.{HasListers, DefaultsReplicas}
use bitcoin_controller.Controller.Queue.{process_item}
use bitcoin_controller.Controller.Queue.Workers.{is_finished, process_item-finished}
use bitcoin_controller.Controller.Pool.{
  WorkQueue, call_at, next_call, calls, play, Place, idle, working, returned, crashed, take, stop,
  again, leave, crash, Pool, update, Step, turn, notify, Steps, here, later, start,
}
use bitcoin_controller.Controller.Pool.Shared.{Documented, play-call}
use bitcoin_controller.Controller.Pool.Exclusive.{IsAtWork}
use bitcoin_controller.Controller.Pool.Settled.{carry, Steps-Settled}

call_at-lt : (cs : List Call) (k : ℕ) (c : Call) → call_at cs k ≡ some c → k < length cs
unfolding call_at
call_at-lt [] k c e = cc
call_at-lt (x ∷ cs) zero c e = omega arith
call_at-lt (x ∷ cs) (suc k) c e = let l = call_at-lt cs k c e in omega (arith, l)

module _ (Q : WorkQueue) (D : Documented Q) (K : Cluster) {Json : Type 0}
    (R : BitcoinClient K.World Json) (H : HasListers K) (F : DefaultsReplicas K) where
  abbrev pub Alive : Pool Q K R → Type 0
  Alive s = (i : ℕ) → s.place i ≢ crashed

  Step-Alive : {n : ℕ} {s t : Pool Q K R} → Alive s → Step Q K R n s t → Alive t
  Step-Alive a (turn i l e (take w g)) j h = absurd (ground (arith, h, a j))
  Step-Alive a (turn i l e (stop g)) j h = absurd (ground (arith, h, a j))
  Step-Alive a (turn i l e again) j h = absurd (ground (arith, h, a j))
  Step-Alive a (turn i l e (calls c g)) j h = absurd (ground (arith, h, a j))
  Step-Alive a (turn i l e (leave f g)) j h = absurd (ground (arith, h, a j))
  Step-Alive a (turn i l e (crash {item} {w} f g)) j h =
      absurd (ground (arith, (process_item-finished K R H F item w).0, g))
  Step-Alive a (notify h) j e = a j e

  pub Steps-Alive : {n : ℕ} {s t : Pool Q K R} → Alive s → Steps Q K R n s t → Alive t
  Steps-Alive a here = a
  Steps-Alive a (later r st) = Step-Alive (Steps-Alive a r) st

  -- Worker `i` has made the calls that were left about its item, and the others are where they were.
  pub record Leaves (n i : ℕ) (item : Item) (t s : Pool Q K R) : Type 0 where
    pub after : Pool Q K R
    pub steps : Steps Q K R n t after
    pub free : after.place i ≡ idle
    pub others : (j : ℕ) → i ≢ j → after.place j ≡ s.place j
    pub queue : (after.queue ≡ s.queue) ⊎ (after.queue ≡ Q.done item s.queue)

  module _ (n i : ℕ) (l : i < n) (t : Pool Q K R) (item : Item) (w : K.World) where
    -- It has no call left.
    leave_now :
        (s : Pool Q K R) (k : ℕ)
        → Steps Q K R n t s
        → s.place i ≡ working item w k
        → next_call Q K R item w k ≡ none
        → Leaves n i item t s
    leave_now s k r e f = record {
      after = record s { place = update Q K R s.place i idle };
      steps = later r (turn i l e (leave f (process_item-finished K R H F item w).0));
      free = ground arith;
      others = λ j ne. ground (arith, ne);
      queue = inl refl;
    }

    -- It makes one call, and then those that are left.
    call_one :
        (s : Pool Q K R) (k : ℕ) (c : Call)
        → Steps Q K R n t s
        → s.place i ≡ working item w k
        → next_call Q K R item w k ≡ some c
        → ((s' : Pool Q K R)
            → Steps Q K R n t s'
            → s'.place i ≡ working item w (suc k)
            → Leaves n i item t s')
        → Leaves n i item t s
    call_one s k c r e f finish_it =
        let s' : Pool Q K R = record {
          queue = play Q (c ∷ []) s.queue;
          place = update Q K R s.place i (working item w (suc k));
        } in
        let r' = later r (turn i l e (calls c f)) in
        let here_now : s'.place i ≡ working item w (suc k) = ground arith in
        elim (play-call Q K R item w k c s.queue f) [
          | inl g ↦
              let rest = finish_it s' r' here_now in
              record {
                after = rest.after;
                steps = rest.steps;
                free = rest.free;
                others = λ j ne. rest.others j ne ∙ ground (arith, ne);
                queue =
                    subst (λ q. (rest.after.queue ≡ q) ⊎ (rest.after.queue ≡ Q.done item q)) g
                      rest.queue;
              }
          | inr (g, h) ↦ record {
            after = record s' { place = update Q K R s'.place i idle };
            steps = later r' (turn i l here_now (leave h (process_item-finished K R H F item w).0));
            free = ground arith;
            others = λ j ne. ground (arith, ne);
            queue = inr g;
          }
        ]

    -- All calls, with a bound on those that are left.
    pub finish :
        (left : ℕ) (s : Pool Q K R) (k : ℕ)
        → Steps Q K R n t s
        → s.place i ≡ working item w k
        → length (process_item K R item w).calls ≤ left + k
        → Leaves n i item t s
    finish zero s k r e b = elim (Option-cases (next_call Q K R item w k)) [
      | inl f ↦ leave_now s k r e f
      | inr (c, f) ↦ absurd (omega (arith, b, call_at-lt (process_item K R item w).calls k c f))
    ]
    finish (suc left) s k r e b = elim (Option-cases (next_call Q K R item w k)) [
      | inl f ↦ leave_now s k r e f
      | inr (c, f) ↦
          call_one s k c r e f (λ s' r' e'. finish left s' (suc k) r' e' (omega (arith, b)))
    ]

  -- The first `k` workers have finished what they had, and the others are where they were.
  pub record Rested (n k : ℕ) (t : Pool Q K R) : Type 0 where
    pub after : Pool Q K R
    pub steps : Steps Q K R n t after
    pub at_rest : (i : ℕ) → i < k → after.place i ≡ idle
    pub others : (i : ℕ) → k ≤ i → after.place i ≡ t.place i
    pub waiting : (x : Item) → Q.is_waiting after.queue x ≡ Q.is_waiting t.queue x

  module _ (n : ℕ) (t : Pool Q K R) (alive : Alive t) where
    -- One more worker comes to its rest.
    rest_one : (k : ℕ) → k < n → Rested n k t → Rested n (suc k) t
    rest_one k l r = by_place (t.place k) (r.others k (omega arith))
      where
        moved :
            {q : Q.State}
            → Step Q K R n r.after (record { queue = q; place = update Q K R r.after.place k idle })
            → ((x : Item) → Q.is_waiting q x ≡ Q.is_waiting r.after.queue x)
            → Rested n (suc k) t
        moved st e = record {
          after = _;
          steps = later r.steps st;
          at_rest = λ i m. ground (arith, m, r.at_rest i);
          others = λ i m. ground (arith, m, r.others i);
          waiting = λ x. e x ∙ r.waiting x;
        }

        by_place : (p : Place K.World) → r.after.place k ≡ p → Rested n (suc k) t
        by_place idle e = record {
          after = r.after;
          steps = r.steps;
          at_rest = λ i m. ground (arith, m, e, r.at_rest i);
          others = λ i m. r.others i (omega (arith, m));
          waiting = r.waiting;
        }
        by_place (working item v c) e =
            let done =
              finish n k l t item v (length (process_item K R item v).calls) r.after c r.steps e
                (omega arith) in
            record {
              after = done.after;
              steps = done.steps;
              at_rest = λ i m. ground (arith, m, done.free, done.others i, r.at_rest i);
              others = λ i m. ground (arith, m, done.others i, r.others i);
              waiting = λ x. elim done.queue [
                | inl g ↦ ap (λ q. Q.is_waiting q x) g ∙ r.waiting x
                | inr g ↦
                    ap (λ q. Q.is_waiting q x) g ∙ D.done_waiting r.after.queue item x ∙ r.waiting x
              ];
            }
        by_place returned e = moved (turn k l e again) (λ x. refl)
        by_place crashed e = absurd (Steps-Alive alive r.steps k e)

    pub rest_all : (k : ℕ) → k ≤ n → Rested n k t
    rest_all zero l = record {
      after = t;
      steps = here;
      at_rest = λ i m. absurd (omega (arith, m));
      others = λ i m. refl;
      waiting = λ x. refl;
    }
    rest_all (suc k) l = rest_one k (omega (arith, l)) (rest_all k (omega (arith, l)))

  -- However the calls of the workers and the handlers have been interleaved, from a queue on of which
  -- nothing is being processed: the workers can all make the calls that they have left, and come to
  -- their next `Get`, with the same items waiting as before, and nothing being processed but keys
  -- that cannot be split. The queue does what is documented of it, there is a pod lister for every
  -- namespace, and every stateful set that is handed out has its replicas.
  pub Steps-drain :
      {n : ℕ} {q : Q.State} {t : Pool Q K R}
      → ((x : Item) → Q.is_processing q x ≡ false)
      → Steps Q K R n (start Q K R q) t
      → (u : Pool Q K R) × Steps Q K R n t u
        × ((i : ℕ) → i < n → u.place i ≡ idle)
        × ((x : Item) → Q.is_waiting u.queue x ≡ Q.is_waiting t.queue x)
        × ((x : Item) → Q.is_processing u.queue x ≡ true → is_finished K x ≡ false)
  Steps-drain {n} {t = t} free r =
      let rested = rest_all n t (Steps-Alive (λ i e. cc) r) n (omega arith) in
      let settled = carry Q D K R H F (Steps-Settled Q D K R H F free r) rested.steps in
      (
        rested.after,
        rested.steps,
        rested.at_rest,
        rested.waiting,
        λ x e. elim (settled x e) [
          | inl (i, l, m) ↦ absurd (subst (λ p. IsAtWork Q D K R p x) (rested.at_rest i l) m)
          | inr f ↦ f
        ],
      )
