-- ===== src/Controller/Pool.antt =====
-- The workers that `Run` starts, on one work queue, interleaved with each other and with the event
-- handlers in any order, call by call. The queue of client-go/util/workqueue is a parameter; what a worker
-- or a handler does to it are the calls of `process_item` and of the handlers, whatever world they find.
-- The stop channel is open.
pub mod Shared
pub mod Exclusive
pub mod Kept
pub mod Settled
pub mod Drained
pub mod Served
use bitcoin_controller.Base.{
  ◌≡◌, refl, ℕ, zero, suc, ◌<◌, nat_eqb, String, ◌==◌, Bool, true, false, ◌||◌, List, [], ◌∷◌,
  Option, none, some, if◌then◌else◌,
}
use bitcoin_controller.Kube.{AnyObject}
use bitcoin_controller.Client.{BitcoinClient}
use bitcoin_controller.Cluster.{Cluster}
use bitcoin_controller.Effects.{Item, key_item, other_item, Call, queue_add, queue_done}
use bitcoin_controller.Controller.Queue.{
  process_item, add_bitcoin_network, update_bitcoin_network, update_object,
}

abbrev pub item_eqb : Item → Item → Bool
item_eqb (key_item a) (key_item b) = a == b
item_eqb (key_item a) (other_item b) = false
item_eqb (other_item a) (key_item b) = false
item_eqb (other_item a) (other_item b) = a == b

-- `workqueue.Interface`. `Get` blocks as long as there is no result. `is_waiting` and
-- `is_processing` are the sets of the items that need to be processed, and that have been handed out
-- and not marked as done since.
pub record WorkQueue : Type 1 where
  pub State : Type 0
  pub add : Item → State → State
  pub get : State → Option ((Item × Bool) × State)
  pub done : Item → State → State
  pub is_waiting : State → Item → Bool
  pub is_processing : State → Item → Bool
  pub is_shut_down : State → Bool

-- Where a worker stands: before `Get`, with an item, which it deals with in a world and of whose calls
-- it has made that many, after its return from `workerMainLoop`, or after a panic.
pub data Place (W : Type 0) : Type 0 where
  idle : Place W
  working : Item → W → ℕ → Place W
  returned : Place W
  crashed : Place W

-- The call with this number, from 0 on.
unfoldable pub call_at : List Call → ℕ → Option Call
call_at [] k = none
call_at (c ∷ cs) zero = some c
call_at (c ∷ cs) (suc k) = call_at cs k

module _ (Q : WorkQueue) where
  -- What calls do to the queue.
  unfoldable pub play : List Call → Q.State → Q.State
  play [] q = q
  play (queue_add key ∷ cs) q = play cs (Q.add (key_item key) q)
  play (queue_done item ∷ cs) q = play cs (Q.done item q)
  play (c ∷ cs) q = play cs q

  module _ (K : Cluster) {Json : Type 0} (R : BitcoinClient K.World Json) where
    -- The next call of a worker, if there is one.
    abbrev pub next_call : Item → K.World → ℕ → Option Call
    next_call item w k = call_at (process_item K R item w).calls k

    -- A move of one worker: `Get`, one call on the way through what it does with the item, the end of
    -- that, and the call of `workerMainLoop` by `wait.Until` after it has returned.
    pub data Move (q : Q.State) : Place K.World → Q.State → Place K.World → Type 0 where
      take :
          {item : Item} {q' : Q.State} (w : K.World)
          → Q.get q ≡ some ((item, false), q')
          → Move q idle q' (working item w 0)
      stop :
          {item : Item} {q' : Q.State} → Q.get q ≡ some ((item, true), q') → Move q idle q' returned
      again : Move q returned q idle
      calls :
          {item : Item} {w : K.World} {k : ℕ} (c : Call)
          → next_call item w k ≡ some c
          → Move q (working item w k) (play (c ∷ []) q) (working item w (suc k))
      leave :
          {item : Item} {w : K.World} {k : ℕ}
          → next_call item w k ≡ none
          → (process_item K R item w).result ≡ some tt
          → Move q (working item w k) q idle
      crash :
          {item : Item} {w : K.World} {k : ℕ}
          → next_call item w k ≡ none
          → (process_item K R item w).result ≡ none
          → Move q (working item w k) q crashed

    -- The calls of an event handler.
    pub data Handled : List Call → Type 0 where
      network_added : (obj : AnyObject) (w : K.World) → Handled (add_bitcoin_network K obj w).calls
      network_updated :
          (old new : AnyObject) (w : K.World) → Handled (update_bitcoin_network K old new w).calls
      object_updated :
          (old new : AnyObject) (w : K.World) → Handled (update_object K old new w).calls

    pub record Pool : Type 0 where
      pub queue : Q.State
      pub place : ℕ → Place K.World

    abbrev pub update : (ℕ → Place K.World) → ℕ → Place K.World → ℕ → Place K.World
    update f i p j = if nat_eqb i j then p else f j

    -- `n` workers: one of them moves, or a handler is called.
    pub data Step (n : ℕ) (s : Pool) : Pool → Type 0 where
      turn :
          (i : ℕ) {p p' : Place K.World} {q' : Q.State}
          → i < n
          → s.place i ≡ p
          → Move s.queue p q' p'
          → Step n s (record { queue = q'; place = update s.place i p' })
      notify :
          {cs : List Call}
          → Handled cs
          → Step n s (record { queue = play cs s.queue; place = s.place })

    pub data Steps (n : ℕ) (s : Pool) : Pool → Type 0 where
      here : Steps n s s
      later : {t u : Pool} → Steps n s t → Step n t u → Steps n s u

    -- Before the first worker has called `Get`.
    abbrev pub start : Q.State → Pool
    start q = record { queue = q; place = λ i. idle }
