-- ===== src/Controller/Pool/Shared.antt =====
-- What is documented of the work queue, and what one call of a handler or a worker does to it.
use bitcoin_controller.Base.{
  ◌≡◌, refl, sym, ℕ, zero, suc, none, ◌++◌, ap, ◌∙◌, String, eq_iff, true, false, ◌||◌, ◌&&◌, not,
  ◌↔◌, ◌⊎◌, inl, inr, List, [], ◌∷◌, some, arith,
}
use mathlib.Core.Option.{some-injective}
use bitcoin_controller.Client.{Error, err, BitcoinClient}
use bitcoin_controller.Cluster.{Cluster}
use bitcoin_controller.Effects.{
  Item, key_item, other_item, Call, queue_add, queue_done, log_error, unlogged,
}
use bitcoin_controller.Controller.Queue.{process_item}
use bitcoin_controller.Controller.Queue.Touches.{
  on_queue, process_item-shape, process_item-malformed,
}
use bitcoin_controller.Controller.Setup.Handlers.{
  OneKey, add_bitcoin_network-Wakes, update_bitcoin_network-Wakes, update_object-Wakes,
}
use bitcoin_controller.Controller.Pool.{
  item_eqb, WorkQueue, call_at, next_call, play, Handled, network_added, network_updated,
  object_updated,
}

pub item_eqb_iff : (a b : Item) → (item_eqb a b ≡ true) ↔ (a ≡ b)
item_eqb_iff (key_item a) (key_item b) = ground (arith, eq_iff a b)
item_eqb_iff (key_item a) (other_item b) = ground arith
item_eqb_iff (other_item a) (key_item b) = ground arith
item_eqb_iff (other_item a) (other_item b) = ground (arith, eq_iff a b)

on_queue-unlogged : (cs : List Call) → on_queue cs ≡ on_queue (unlogged cs)
on_queue-unlogged [] = refl
on_queue-unlogged (log_error message ∷ cs) = on_queue-unlogged cs
on_queue-unlogged (queue_add key ∷ cs) = ap (λ xs. queue_add key ∷ xs) (on_queue-unlogged cs)
on_queue-unlogged (queue_done item ∷ cs) = ap (λ xs. queue_done item ∷ xs) (on_queue-unlogged cs)
on_queue-unlogged (c ∷ cs) = ground (arith, on_queue-unlogged cs)

on_queue-cons :
    (c : Call) (cs : List Call)
    → on_queue (c ∷ cs) ≡ []
    → (on_queue (c ∷ []) ≡ []) × (on_queue cs ≡ [])
on_queue-cons (queue_add key) cs h = cc
on_queue-cons (queue_done item) cs h = cc
on_queue-cons c cs h = ground (arith, h)

-- A call among calls that say nothing to the queue.
call_at-quiet :
    (cs : List Call) (k : ℕ) (c : Call)
    → on_queue cs ≡ []
    → call_at cs k ≡ some c
    → on_queue (c ∷ []) ≡ []
unfolding call_at
call_at-quiet [] k c h e = cc
call_at-quiet (x ∷ cs) zero c h e =
    ap (λ y. on_queue (y ∷ [])) (sym (some-injective _ _ e)) ∙ (on_queue-cons x cs h).0
call_at-quiet (x ∷ cs) (suc k) c h e = call_at-quiet cs k c (on_queue-cons x cs h).1 e

-- The last call, when it alone says that the item is done.
call_at-last :
    (cs : List Call) (item : Item) (k : ℕ) (c : Call)
    → on_queue cs ≡ []
    → call_at (cs ++ queue_done item ∷ []) k ≡ some c
    → (on_queue (c ∷ []) ≡ [])
      ⊎ ((c ≡ queue_done item) × (call_at (cs ++ queue_done item ∷ []) (suc k) ≡ none))
unfolding call_at
call_at-last [] item zero c h e = inr (sym (some-injective _ _ e), refl)
call_at-last [] item (suc k) c h e = cc
call_at-last (x ∷ cs) item zero c h e =
    inl (ap (λ y. on_queue (y ∷ [])) (sym (some-injective _ _ e)) ∙ (on_queue-cons x cs h).0)
call_at-last (x ∷ cs) item (suc k) c h e = call_at-last cs item k c (on_queue-cons x cs h).1 e

-- What client-go documents of its queue. An item that is handed out is not being processed, and is
-- until it is marked as done; it no longer waits, unless it is added again. An item that is added
-- waits, unless the queue has been shut down.
pub record Documented (Q : WorkQueue) : Type 0 where
  pub get_idle :
      (q q' : Q.State) (item : Item)
      → Q.get q ≡ some ((item, false), q')
      → Q.is_processing q item ≡ false
  pub get_processing :
      (q q' : Q.State) (item x : Item)
      → Q.get q ≡ some ((item, false), q')
      → Q.is_processing q' x ≡ (item_eqb x item || Q.is_processing q x)
  pub get_waiting :
      (q q' : Q.State) (item x : Item)
      → Q.get q ≡ some ((item, false), q')
      → Q.is_waiting q' x ≡ (Q.is_waiting q x && not (item_eqb x item))
  pub stop_keeps :
      (q q' : Q.State) (item x : Item)
      → Q.get q ≡ some ((item, true), q')
      → (Q.is_processing q' x ≡ Q.is_processing q x) × (Q.is_waiting q' x ≡ Q.is_waiting q x)
  pub add_processing :
      (q : Q.State) (item x : Item) → Q.is_processing (Q.add item q) x ≡ Q.is_processing q x
  pub add_keeps :
      (q : Q.State) (item x : Item) → Q.is_waiting q x ≡ true → Q.is_waiting (Q.add item q) x ≡ true
  pub add_waits :
      (q : Q.State) (item : Item)
      → Q.is_shut_down q ≡ false
      → Q.is_waiting (Q.add item q) item ≡ true
  pub done_processing :
      (q : Q.State) (item x : Item)
      → Q.is_processing (Q.done item q) x ≡ (Q.is_processing q x && not (item_eqb x item))
  pub done_waiting :
      (q : Q.State) (item x : Item) → Q.is_waiting (Q.done item q) x ≡ Q.is_waiting q x

module _ (Q : WorkQueue) where
  pub play-on_queue : (cs : List Call) (q : Q.State) → play Q cs q ≡ play Q (on_queue cs) q
  unfolding play
  play-on_queue [] q = refl
  play-on_queue (queue_add key ∷ cs) q = play-on_queue cs (Q.add (key_item key) q)
  play-on_queue (queue_done item ∷ cs) q = play-on_queue cs (Q.done item q)
  play-on_queue (c ∷ cs) q = ground (arith, play-on_queue cs q)

  play-OneKey :
      (cs : List Call) (q : Q.State)
      → OneKey cs
      → (play Q cs q ≡ q) ⊎ ((key : String) × (play Q cs q ≡ Q.add (key_item key) q))
  unfolding play
  play-OneKey cs q (inl e) =
      inl (play-on_queue cs q ∙ ap (λ xs. play Q xs q) (on_queue-unlogged cs ∙ ap on_queue e))
  play-OneKey cs q (inr (key, e)) =
      inr (key, play-on_queue cs q ∙ ap (λ xs. play Q xs q) (on_queue-unlogged cs ∙ ap on_queue e))

  module _ (K : Cluster) {Json : Type 0} (R : BitcoinClient K.World Json) where
    -- A handler adds one key or none.
    pub play-Handled :
        (cs : List Call) (q : Q.State)
        → Handled Q K R cs
        → (play Q cs q ≡ q) ⊎ ((key : String) × (play Q cs q ≡ Q.add (key_item key) q))
    play-Handled cs q (network_added obj w) = play-OneKey _ q (add_bitcoin_network-Wakes K obj w)
    play-Handled cs q (network_updated old new w) =
        play-OneKey _ q (update_bitcoin_network-Wakes K old new w)
    play-Handled cs q (object_updated old new w) = play-OneKey _ q (update_object-Wakes K old new w)

    -- A worker makes one call.
    pub play-call :
        (item : Item) (w : K.World) (k : ℕ) (c : Call) (q : Q.State)
        → next_call Q K R item w k ≡ some c
        → (play Q (c ∷ []) q ≡ q)
          ⊎ ((play Q (c ∷ []) q ≡ Q.done item q) × (next_call Q K R item w (suc k) ≡ none))
    unfolding play
    play-call item w k c q e =
        let (before, quiet, shape) = process_item-shape K R item w in
        elim shape [
          | inl f ↦
              inl (by_quiet (call_at-quiet before k c quiet (sym (ap (λ cs. call_at cs k) f) ∙ e)))
          | inr f ↦
              elim (call_at-last before item k c quiet (sym (ap (λ cs. call_at cs k) f) ∙ e)) [
                | inl g ↦ inl (by_quiet g)
                | inr g ↦
                    inr (ap (λ x. play Q (x ∷ []) q) g.0, ap (λ cs. call_at cs (suc k)) f ∙ g.1)
              ]
        ]
      where
        by_quiet : on_queue (c ∷ []) ≡ [] → play Q (c ∷ []) q ≡ q
        by_quiet g = play-on_queue (c ∷ []) q ∙ ap (λ xs. play Q xs q) g

    -- It says nothing to the queue about a key that cannot be split.
    pub play-malformed :
        (key : String) (e : Error) (w : K.World) (k : ℕ) (c : Call) (q : Q.State)
        → K.split_key key ≡ err e
        → next_call Q K R (key_item key) w k ≡ some c
        → play Q (c ∷ []) q ≡ q
    unfolding play
    play-malformed key e w k c q bad f =
        play-on_queue (c ∷ []) q
        ∙ ap (λ xs. play Q xs q)
            (call_at-quiet (process_item K R (key_item key) w).calls k c
              (process_item-malformed K R key e w bad) f)
