-- ===== src/Controller/Queue/Touches.antt =====
-- The calls that change the work queue: those of a reconciliation, and of a worker.
use bitcoin_controller.Base.{
  ◌≡◌, refl, ap, ℕ, String, Bool, true, false, List, [], ◌∷◌, ◌++◌, Option, none, some, arith, All,
  append-nil, ◌⊎◌, inl, inr,
}
use bitcoin_controller.Apis.{BitcoinNetwork}
use bitcoin_controller.Client.{BitcoinClient, Result, ok, err, Error}
use bitcoin_controller.Cluster.{Cluster}
use bitcoin_controller.Effects.{
  Item, key_item, other_item, Call, create_service, create_stateful_set, update_stateful_set,
  update_status, get_secret, record_event, get_added_nodes, add_node, remove_node, queue_add,
  queue_done, start_worker, log_error,
}
use bitcoin_controller.Controller.Recon.{recon_network, do_recon}
use bitcoin_controller.Controller.Recon.Own.{IsOwn}
use bitcoin_controller.Controller.Recon.Frame.{recon_network-IsOwn}
use bitcoin_controller.Controller.Queue.{process_item}

-- The calls to the queue.
abbrev pub on_queue : List Call → List Call
on_queue [] = []
on_queue (queue_add key ∷ cs) = queue_add key ∷ on_queue cs
on_queue (queue_done item ∷ cs) = queue_done item ∷ on_queue cs
on_queue (c ∷ cs) = on_queue cs

pub on_queue-append : (xs ys : List Call) → on_queue (xs ++ ys) ≡ on_queue xs ++ on_queue ys
on_queue-append [] ys = refl
on_queue-append (queue_add key ∷ xs) ys = ap (λ cs. queue_add key ∷ cs) (on_queue-append xs ys)
on_queue-append (queue_done item ∷ xs) ys = ap (λ cs. queue_done item ∷ cs) (on_queue-append xs ys)
on_queue-append (c ∷ xs) ys = ground (arith, on_queue-append xs ys)

module _ (K : Cluster) where
  own-on_queue :
      (network : BitcoinNetwork) (namespace name : String) (cs : List Call)
      → All (IsOwn K network namespace name) cs
      → on_queue cs ≡ []
  own-on_queue network namespace name [] h = refl
  own-on_queue network namespace name (create_service ns s ∷ cs) h =
      own-on_queue network namespace name cs h.1
  own-on_queue network namespace name (create_stateful_set ns s ∷ cs) h =
      own-on_queue network namespace name cs h.1
  own-on_queue network namespace name (update_stateful_set ns s ∷ cs) h =
      own-on_queue network namespace name cs h.1
  own-on_queue network namespace name (update_status ns s ∷ cs) h =
      own-on_queue network namespace name cs h.1
  own-on_queue network namespace name (get_secret ns s ∷ cs) h =
      own-on_queue network namespace name cs h.1
  own-on_queue network namespace name (record_event n type reason message ∷ cs) h =
      own-on_queue network namespace name cs h.1
  own-on_queue network namespace name (get_added_nodes c ∷ cs) h =
      own-on_queue network namespace name cs h.1
  own-on_queue network namespace name (add_node node c ∷ cs) h =
      own-on_queue network namespace name cs h.1
  own-on_queue network namespace name (remove_node node c ∷ cs) h =
      own-on_queue network namespace name cs h.1
  own-on_queue network namespace name (queue_add key ∷ cs) h = absurd h.0
  own-on_queue network namespace name (queue_done item ∷ cs) h = absurd h.0
  own-on_queue network namespace name (start_worker ∷ cs) h = absurd h.0
  own-on_queue network namespace name (log_error message ∷ cs) h =
      own-on_queue network namespace name cs h.1

  module _ {Json : Type 0} (R : BitcoinClient K.World Json) where
    recon_network-on_queue :
        (network : BitcoinNetwork) (namespace name : String) (w : K.World)
        → on_queue (recon_network K R network namespace name w).calls ≡ []
    recon_network-on_queue network namespace name w =
        own-on_queue network namespace name _ (recon_network-IsOwn K network namespace name R w)

    pub do_recon-on_queue : (key : String) (w : K.World) → on_queue (do_recon K R key w).calls ≡ []
    unfolding do_recon
    do_recon-on_queue key w = by_key (K.split_key key) refl
      where
        by_deletion :
            (namespace name : String)
            → K.split_key key ≡ ok (namespace, name)
            → (network : BitcoinNetwork) → (K.get_network namespace name w).0 ≡ ok network
            → (o : Option ℕ) → network.meta.deletion_timestamp ≡ o
            → on_queue (do_recon K R key w).calls ≡ []
        by_deletion namespace name e network f (some t) g = ground (arith, e, f, g)
        by_deletion namespace name e network f none g = ground (
          arith,
          e,
          f,
          g,
          recon_network-on_queue network namespace name (K.get_network namespace name w).1,
        )

        by_network :
            (namespace name : String)
            → K.split_key key ≡ ok (namespace, name)
            → (r : Result BitcoinNetwork) → (K.get_network namespace name w).0 ≡ r
            → on_queue (do_recon K R key w).calls ≡ []
        by_network namespace name e (err x) f = ground (arith, e, f)
        by_network namespace name e (ok network) f =
            by_deletion namespace name e network f network.meta.deletion_timestamp refl

        by_key :
            (r : Result (String × String))
            → K.split_key key ≡ r
            → on_queue (do_recon K R key w).calls ≡ []
        by_key (err x) e = ground (arith, e)
        by_key (ok (namespace, name)) e =
            by_network namespace name e (K.get_network namespace name w).0 refl

    do_recon-malformed :
        (key : String) (e : Error) (w : K.World)
        → K.split_key key ≡ err e
        → (do_recon K R key w).result ≡ some false
    unfolding do_recon
    do_recon-malformed key e w h = ground (arith, h)

    -- The calls of a worker for an item: those that say nothing to the queue, and then at most one that
    -- it is done with the item.
    pub process_item-shape :
        (item : Item) (w : K.World)
        → (before : List Call) × (on_queue before ≡ [])
          × (((process_item K R item w).calls ≡ before)
              ⊎ ((process_item K R item w).calls ≡ before ++ queue_done item ∷ []))
    unfolding process_item
    process_item-shape (other_item what) w =
        (log_error "Got something from the queue which is not a string" ∷ [], refl, inr refl)
    process_item-shape (key_item key) w = (
      (do_recon K R key w).calls,
      do_recon-on_queue key w,
      by_result (do_recon K R key w).result refl,
    )
      where
        by_result :
            (r : Option Bool)
            → (do_recon K R key w).result ≡ r
            → ((process_item K R (key_item key) w).calls ≡ (do_recon K R key w).calls)
              ⊎ ((process_item K R (key_item key) w).calls
                  ≡ (do_recon K R key w).calls ++ queue_done (key_item key) ∷ [])
        by_result none e = inl (ground (arith, e))
        by_result (some false) e = inl (ground (arith, e, append-nil (do_recon K R key w).calls))
        by_result (some true) e = inr (ground (arith, e))

    -- It does not even that for a key that cannot be split.
    pub process_item-malformed :
        (key : String) (e : Error) (w : K.World)
        → K.split_key key ≡ err e
        → on_queue (process_item K R (key_item key) w).calls ≡ []
    unfolding process_item
    process_item-malformed key e w h = ground (
      arith,
      do_recon-malformed key e w h,
      do_recon-on_queue key w,
      append-nil (do_recon K R key w).calls,
    )
