-- ===== src/Controller/Queue/Workers.antt =====
-- Which items the workers mark as done, and when a worker returns.
use bitcoin_controller.Base.{
  ◌≡◌, refl, ap, ◌∙◌, ℕ, zero, suc, String, Bool, true, false, List, [], ◌∷◌, ◌++◌, filter, none,
  some, arith, append-nil, length, replicate, ◌<◌, Bool-cases, inl, inr, if◌then◌else◌,
}
use bitcoin_controller.Client.{BitcoinClient, is_ok, foreign}
use bitcoin_controller.Cluster.{Cluster}
use bitcoin_controller.Effects.{
  Item, key_item, other_item, Call, after, queue_add, queue_done, start_worker,
}
use bitcoin_controller.Controller.Recon.{do_recon}
use bitcoin_controller.Controller.Recon.Outcome.{HasListers, DefaultsReplicas, do_recon-result}
use bitcoin_controller.Controller.Queue.Touches.{on_queue, do_recon-on_queue}
use bitcoin_controller.Controller.Queue.{
  process_item, worker_main_loop, Synced, synced_functions, start_workers, run_controller,
}

-- The items that the calls mark as done.
abbrev pub finished : List Call → List Item
finished [] = []
finished (queue_done item ∷ cs) = item ∷ finished cs
finished (c ∷ cs) = finished cs

finished-append : (xs ys : List Call) → finished (xs ++ ys) ≡ finished xs ++ finished ys
finished-append [] ys = refl
finished-append (queue_done item ∷ xs) ys = ground (arith, finished-append xs ys)
finished-append (c ∷ xs) ys = ground (arith, finished-append xs ys)

-- What is marked as done is a call to the queue.
pub finished-on_queue : (cs : List Call) → finished cs ≡ finished (on_queue cs)
finished-on_queue [] = refl
finished-on_queue (queue_add key ∷ cs) = finished-on_queue cs
finished-on_queue (queue_done item ∷ cs) = ap (λ items. item ∷ items) (finished-on_queue cs)
finished-on_queue (c ∷ cs) = ground (arith, finished-on_queue cs)

module _ (K : Cluster) where
  -- The worker is done with an item that is no text, and with a key that splits.
  abbrev pub is_finished : Item → Bool
  is_finished (key_item key) = is_ok (K.split_key key)
  is_finished (other_item what) = true

  module _ {Json : Type 0} (R : BitcoinClient K.World Json) where
    do_recon-finished : (key : String) (w : K.World) → finished (do_recon K R key w).calls ≡ []
    do_recon-finished key w =
        finished-on_queue (do_recon K R key w).calls ∙ ap finished (do_recon-on_queue K R key w)

    -- A worker deals with every item without a panic, and marks it as done, once, exactly if it is no
    -- text or a key that splits; it marks no other item.
    pub process_item-finished :
        HasListers K
        → DefaultsReplicas K
        → (item : Item) (w : K.World)
        → ((process_item K R item w).result ≡ some tt)
          × (finished (process_item K R item w).calls
              ≡ (if is_finished item then item ∷ [] else []))
    unfolding process_item
    process_item-finished H D (other_item what) w = (refl, refl)
    process_item-finished H D (key_item key) w =
        by_done (is_ok (K.split_key key)) (do_recon-result K R H D key w) (do_recon-finished key w)
      where
        by_done :
            (b : Bool)
            → (do_recon K R key w).result ≡ some b
            → finished (do_recon K R key w).calls ≡ []
            → ((process_item K R (key_item key) w).result ≡ some tt)
              × (finished (process_item K R (key_item key) w).calls
                  ≡ (if b then key_item key ∷ [] else []))
        by_done true e f = ground (
          arith,
          e,
          f,
          finished-append (do_recon K R key w).calls (queue_done (key_item key) ∷ []),
        )
        by_done false e f = ground (arith, e, f, append-nil (do_recon K R key w).calls)

    -- From this world on, the queue hands the worker these items, one after the other, and then
    -- says that it has been shut down.
    pub data HandsOut : K.World → List Item → Type 0 where
      shut_down : {w : K.World} → (K.queue_get w).0.1 ≡ true → HandsOut w []
      hand_out :
          {w : K.World} {item : Item} {items : List Item}
          → (K.queue_get w).0 ≡ (item, false)
          → HandsOut (process_item K R item (K.queue_get w).1).world items
          → HandsOut w (item ∷ items)

    worker_main_loop-suc :
        (rounds : ℕ) (w : K.World) (item : Item)
        → (K.queue_get w).0 ≡ (item, false)
        → let first = process_item K R item (K.queue_get w).1 in
          first.result ≡ some tt
          → worker_main_loop K R (suc rounds) w
            ≡ after first.calls (worker_main_loop K R rounds first.world)
    unfolding worker_main_loop
    worker_main_loop-suc rounds w item e f = ground (arith, e, f)

    -- A worker that gets some items before the queue is shut down returns, if it has more rounds than
    -- there are items, and has marked as done, in order, the items that are no text and the keys
    -- that split, and no others.
    pub worker_main_loop-finished :
        HasListers K
        → DefaultsReplicas K
        → (items : List Item) (w : K.World) (rounds : ℕ) → HandsOut w items
        → length items < rounds
        → ((worker_main_loop K R rounds w).result ≡ some true)
          × (finished (worker_main_loop K R rounds w).calls ≡ filter is_finished items)
    unfolding worker_main_loop
    worker_main_loop-finished H D items w zero h l = absurd (omega arith)
    worker_main_loop-finished H D [] w (suc rounds) (shut_down e) l = ground (arith, e)
    worker_main_loop-finished H D (item ∷ items) w (suc rounds) (hand_out e h) l =
        let w₁ = (K.queue_get w).1 in
        let first = process_item-finished H D item w₁ in
        let w₂ = (process_item K R item w₁).world in
        let rest = worker_main_loop-finished H D items w₂ rounds h (omega arith) in
        rw
          (
            worker_main_loop-suc rounds w item e first.0,
            finished-append (process_item K R item w₁).calls (worker_main_loop K R rounds w₂).calls,
            first.1,
            rest.1,
          )
          (rest.0, ground arith)

module _ (K : Cluster) where
  start_workers-run :
      (threads : ℕ) (w : K.World)
      → ((start_workers K threads w).result ≡ some tt)
        × ((start_workers K threads w).calls ≡ replicate threads start_worker)
  unfolding start_workers
  start_workers-run zero w = (refl, refl)
  start_workers-run (suc n) w =
      let rest = start_workers-run n (K.start_worker w) in ground (arith, rest.0, rest.1)

  -- `Run` starts as many workers as it is asked for and returns no error before it waits, if the
  -- caches could be filled; otherwise it starts none and returns an error.
  pub run_controller-workers :
      (c : Synced K.World) (threads : ℕ) (w : K.World)
      → let synced = (K.wait_for_cache_sync (synced_functions c) w).0 in
        ((run_controller K c threads w).result
          ≡ some (
              if synced
              then none
              else some (foreign "fmt.Errorf" "failed to wait for caches to sync")))
        × ((run_controller K c threads w).calls
            ≡ (if synced then replicate threads start_worker else []))
  unfolding run_controller
  run_controller-workers c threads w =
      elim (Bool-cases (K.wait_for_cache_sync (synced_functions c) w).0) [
        | inl e ↦ ground (
          arith,
          e,
          start_workers-run threads (K.wait_for_cache_sync (synced_functions c) w).1,
          append-nil (replicate threads start_worker),
        )
        | inr e ↦ ground (arith, e)
      ]
