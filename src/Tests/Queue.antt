-- ===== src/Tests/Queue.antt =====
-- The handlers at work.
use bitcoin_controller.Base.{◌≡◌, refl, [], ◌∷◌, some, List, true, false, Bool, filter, arith}
use bitcoin_controller.Kube.{object, not_object}
use bitcoin_controller.Effects.{Item, key_item, other_item}
use bitcoin_controller.Client.{err}
use bitcoin_controller.Cluster.{Cluster}
use bitcoin_controller.Controller.Recon.{do_recon}
use bitcoin_controller.Controller.Recon.Outcome.{HasListers, DefaultsReplicas}
use bitcoin_controller.Controller.Queue.Workers.{
  finished, is_finished, HandsOut, shut_down, hand_out, worker_main_loop-finished,
}
use bitcoin_controller.Controller.Create.{new_stateful_set, new_headless_service}
use bitcoin_controller.Controller.Queue.{update_object, process_item, worker_main_loop}
use bitcoin_controller.Controller.Queue.Ownership.{queued, update_object-created}
use bitcoin_controller.Tests.Lab.{
  cluster, cluster-RefersToOwner, network, network-HasKey, World, client, not_found, pods,
}

update_object-created_example :
    (update_object cluster not_object
        (object (new_stateful_set cluster network "net-sts" "net-svc").meta)
        []
      ≡ queued cluster "default/net" [])
    × (update_object cluster not_object
          (object (new_headless_service cluster network "net-svc").meta)
          []
        ≡ queued cluster "default/net" [])
update_object-created_example =
    update_object-created cluster cluster-RefersToOwner network network "net-sts" "net-svc"
      not_object [] refl network-HasKey

-- The queue hands out a key, a malformed key and a value that is no text, and is then shut down.
-- The world counts what has been handed out; the cache is empty.
abbrev next_item : World → (Item × Bool) × World
next_item [] = ((key_item "default/net", false), ("", "") ∷ [])
next_item (x ∷ []) = ((key_item "a/b/c", false), ("", "") ∷ x ∷ [])
next_item (x ∷ y ∷ []) = ((other_item "7", false), ("", "") ∷ x ∷ y ∷ [])
next_item (x ∷ y ∷ z ∷ w) = ((other_item "end", true), x ∷ y ∷ z ∷ w)

abbrev busy : Cluster
busy = record cluster { get_network = λ ns name w. (err not_found, w); queue_get = next_item }

busy_listers : HasListers busy
busy_listers = record { lister = λ ns. ((λ name w. (pods name, w)), refl) }

busy_replicas : DefaultsReplicas busy
busy_replicas = record {
  cached = λ ns name w sts e h. ground arith;
  created = λ ns sent w sts e h. ground arith;
}

abbrev items : List Item
items = key_item "default/net" ∷ key_item "a/b/c" ∷ other_item "7" ∷ []

busy-HandsOut : HandsOut busy client [] items
unfolding process_item do_recon
busy-HandsOut = hand_out refl (hand_out refl (hand_out refl (shut_down refl)))

worker_main_loop-finished_example :
    ((worker_main_loop busy client 4 []).result ≡ some true)
    × (finished (worker_main_loop busy client 4 []).calls ≡ filter (is_finished busy) items)
worker_main_loop-finished_example =
    worker_main_loop-finished busy client busy_listers busy_replicas items [] 4 busy-HandsOut
      (omega arith)
