-- ===== src/Tests/Pool.antt =====
-- Two workers on a queue that is two lists.
use bitcoin_controller.Base.{
  ◌≡◌, ◌<◌, ◌⊎◌, refl, ap, ◌∙◌, ℕ, Bool, true, false, ◌||◌, ◌&&◌, not, List, [], ◌∷◌, Option, none,
  some, Option-cases, inl, inr, arith, if◌then◌else◌,
}
use bitcoin_controller.Kube.{object, not_object}
use bitcoin_controller.Client.{foreign}
use bitcoin_controller.Effects.{Item, Call, log_error, key_item}
use bitcoin_controller.Controller.Create.{new_stateful_set}
use bitcoin_controller.Controller.Queue.{process_item, update_object, add_bitcoin_network}
use bitcoin_controller.Controller.Queue.Workers.{is_finished, process_item-finished}
use bitcoin_controller.Controller.Recon.{do_recon}
use bitcoin_controller.Controller.Pool.{
  item_eqb, WorkQueue, play, idle, working, take, calls, call_at, next_call, leave, network_added,
  Pool, update, turn, notify, Steps, here, later, start,
}
use bitcoin_controller.Controller.Pool.Shared.{item_eqb_iff, Documented}
use bitcoin_controller.Controller.Pool.Exclusive.{IsAtWork, Steps-alone}
use bitcoin_controller.Controller.Pool.Settled.{Steps-Settled}
use bitcoin_controller.Controller.Pool.Kept.{takes, Steps-stays}
use bitcoin_controller.Tests.Lab.{cluster, client, network, plain_meta}
use bitcoin_controller.Tests.Recon.{listers, replicas}

pub record Lists : Type 0 where
  pub waiting : List Item
  pub processing : List Item

abbrev pub holds : Item → List Item → Bool
holds x [] = false
holds x (y ∷ ys) = item_eqb x y || holds x ys

abbrev pub drop : Item → List Item → List Item
drop x [] = []
drop x (y ∷ ys) = let rest = drop x ys in if item_eqb x y then rest else y ∷ rest

-- The first item that is not being processed.
abbrev pub pick : List Item → List Item → Option Item
pick [] busy = none
pick (x ∷ xs) busy = let rest = pick xs busy in if holds x busy then rest else some x

abbrev pub handed : Lists → Item → (Item × Bool) × Lists
handed q x = ((x, false), record { waiting = drop x q.waiting; processing = x ∷ q.processing })

abbrev pub get : Lists → Option ((Item × Bool) × Lists)
get q = elim (pick q.waiting q.processing) [ none ↦ none | some x ↦ some (handed q x) ]

abbrev pub queue : WorkQueue
queue = record {
  State = Lists;
  add = λ x q. record q { waiting = x ∷ q.waiting };
  get = get;
  done = λ x q. record q { processing = drop x q.processing };
  is_waiting = λ q x. holds x q.waiting;
  is_processing = λ q x. holds x q.processing;
  is_shut_down = λ q. false;
}

holds-drop :
    (x y : Item) (xs : List Item) → holds x (drop y xs) ≡ (holds x xs && not (item_eqb x y))
holds-drop x y [] = refl
holds-drop x y (z ∷ zs) = ground (
  arith,
  holds-drop x y zs,
  item_eqb_iff x y,
  item_eqb_iff y z,
  item_eqb_iff x z,
  item_eqb_iff y x,
)

pub pick-free : (xs busy : List Item) (x : Item) → pick xs busy ≡ some x → holds x busy ≡ false
pick-free [] busy x e = cc
pick-free (y ∷ ys) busy x e = ground (arith, e, pick-free ys busy x)

pub get-handed :
    (q q' : Lists) (x : Item) (b : Bool)
    → get q ≡ some ((x, b), q')
    → (pick q.waiting q.processing ≡ some x) × (((x, b), q') ≡ handed q x)
get-handed q q' x b e = elim (Option-cases (pick q.waiting q.processing)) [
  | inl f ↦ ground (arith, e, f)
  | inr (y, f) ↦ ground (arith, e, f)
]

pub queue-Documented : Documented queue
queue-Documented = record {
  get_idle = λ q q' x e. pick-free q.waiting q.processing x (get-handed q q' x false e).0;
  get_processing = λ q q' x y e. ap (λ r. holds y r.1.processing) (get-handed q q' x false e).1;
  get_waiting = λ q q' x y e.
      ap (λ r. holds y r.1.waiting) (get-handed q q' x false e).1 ∙ holds-drop y x q.waiting;
  stop_keeps = λ q q' x y e. let f = (get-handed q q' x true e).1 in absurd (ground (arith, f));
  add_processing = λ q x y. refl;
  add_keeps = λ q x y e. ground (arith, e);
  add_waits = λ q x e. ground (arith, item_eqb_iff x x);
  done_processing = λ q x y. holds-drop y x q.processing;
  done_waiting = λ q x y. refl;
}

abbrev pub net : Item
net = key_item "default/net"

abbrev pub bad : Item
bad = key_item "a/b/c"

abbrev two_keys : Lists
two_keys = record { waiting = net ∷ bad ∷ []; processing = [] }

-- The second worker takes the malformed key, after the first one has taken the other.
abbrev pub after_first : Pool queue cluster client
after_first = record {
  queue = record { waiting = bad ∷ []; processing = net ∷ [] };
  place = update queue cluster client (λ i. idle) 0 (working net [] 0);
}

abbrev pub both_taken : Pool queue cluster client
both_taken = record {
  queue = record { waiting = []; processing = bad ∷ net ∷ [] };
  place = update queue cluster client after_first.place 1 (working bad [] 0);
}

abbrev pub takes_both :
    Steps queue cluster client 2 (start queue cluster client two_keys) both_taken
takes_both =
    later (later here (turn 0 (omega arith) refl (take [] refl)))
      (turn 1 (omega arith) refl (take [] refl))

-- Its one call is to the log.
abbrev complaint : Call
complaint = log_error "Could not split key a/b/c into name and namespace\n"

complains : next_call queue cluster client bad [] 0 ≡ some complaint
unfolding call_at process_item do_recon
complains = refl

is_over : next_call queue cluster client bad [] 1 ≡ none
unfolding call_at process_item do_recon
is_over = refl

Steps-alone_example : (◌≡◌ {A = ℕ} 1 1) × (holds bad both_taken.queue.processing ≡ true)
Steps-alone_example =
    Steps-alone queue queue-Documented cluster client takes_both 1 1 bad
      (refl, complaint, complains) (refl, complaint, complains)

Steps-Settled_example :
    ((i : ℕ) × (i < 2) × IsAtWork queue queue-Documented cluster client (both_taken.place i) net)
    ⊎ (is_finished cluster net ≡ false)
Steps-Settled_example =
    Steps-Settled queue queue-Documented cluster client listers replicas (λ x. refl) takes_both net
      refl

-- It makes the call and leaves, and the handler adds the key once more.
abbrev complained : Pool queue cluster client
complained = record {
  queue = play queue (complaint ∷ []) both_taken.queue;
  place = update queue cluster client both_taken.place 1 (working bad [] 1);
}

abbrev given_back : Pool queue cluster client
given_back = record {
  queue = complained.queue;
  place = update queue cluster client complained.place 1 idle;
}

abbrev added_again : Pool queue cluster client
added_again = record {
  queue =
      play queue (add_bitcoin_network cluster (object (plain_meta "net")) []).calls
        given_back.queue;
  place = given_back.place;
}

abbrev goes_on : Steps queue cluster client 2 both_taken added_again
goes_on =
    later
      (later (later here (turn 1 (omega arith) refl (calls complaint complains))) (
        turn 1 (omega arith) refl
          (leave is_over (process_item-finished cluster client listers replicas bad []).0)))
      (notify (network_added (object (plain_meta "net")) []))

Steps-stays_example :
    (holds bad added_again.queue.processing ≡ true)
    × (takes queue cluster client goes_on bad ≡ false)
Steps-stays_example =
    Steps-stays queue cluster client queue-Documented "a/b/c"
      (foreign "key" "unexpected key format") refl goes_on refl

-- A change of the stateful set while the network is being reconciled by the first worker.
abbrev pub reconciling : Pool queue cluster client
reconciling = record {
  queue = record { waiting = []; processing = net ∷ [] };
  place = after_first.place;
}

abbrev pub changed : Pool queue cluster client
changed = record {
  queue =
      play queue
        (update_object cluster not_object
          (object (new_stateful_set cluster network "net-sts" "net-svc").meta) []).calls
        reconciling.queue;
  place = reconciling.place;
}
