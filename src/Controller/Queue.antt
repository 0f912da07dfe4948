-- ===== src/Controller/Queue.antt =====
-- The event handlers, the work queue, the worker loop and `Run`.
pub mod Ownership
pub mod Touches
pub mod Workers
use bitcoin_controller.Base.{
  ℕ, zero, suc, String, ◌==◌, Bool, true, false, not, Option, none, some, if◌then◌else◌, nat_eqb,
  List, [], ◌∷◌,
}
use bitcoin_controller.Kube.{ObjectMeta, AnyObject, object, not_object}
use bitcoin_controller.Client.{ok, err, Error, foreign, BitcoinClient}
use bitcoin_controller.Effects.{
  Item, key_item, other_item, queue_add, queue_done, start_worker, Exec, pure, panic, read, emit,
  error_log, ◌>>=◌, ◌>>◌,
}
use bitcoin_controller.Cluster.{Cluster}
use bitcoin_controller.Controller.Recon.{do_recon}

-- The functions of a controller that tell whether a cache has been filled.
pub record Synced (W : Type 0) : Type 0 where
  pub bc_informer_synced : W → Bool
  pub sts_informer_synced : W → Bool
  pub svc_informer_synced : W → Bool
  pub pod_informer_synced : W → Bool

abbrev pub synced_functions : {W : Type 0} → Synced W → List (W → Bool)
synced_functions c =
    c.bc_informer_synced ∷ c.sts_informer_synced ∷ c.svc_informer_synced ∷ c.pod_informer_synced
    ∷ []

module _ (K : Cluster) where
  unfoldable pub enqueue : AnyObject → Exec K.World (Unit {0})
  enqueue obj = elim (K.meta_namespace_key obj) [
    | err e ↦ error_log "Could not extract name and namespace"
    | ok key ↦ emit (queue_add key) (K.queue_add key)
  ]

  -- `object, ok = obj.(metav1.Object)`: the nil interface if the conversion fails.
  abbrev pub as_object : AnyObject → Option ObjectMeta
  as_object (object m) = some m
  as_object not_object = none

  -- `object.GetNamespace()`, which panics on the nil interface.
  abbrev namespace_of : Option ObjectMeta → Exec K.World String
  namespace_of none = panic
  namespace_of (some m) = pure m.namespace

  abbrev report_conversion : Option ObjectMeta → Exec K.World (Unit {0})
  report_conversion none = error_log "Could not convert object, giving up"
  report_conversion (some _) = pure tt

  unfoldable pub handle_object : AnyObject → Exec K.World (Unit {0})
  unfolding enqueue
  handle_object obj = do
    report_conversion (as_object obj)
    elim (K.get_controller_of (as_object obj)) [
      | none ↦ panic
      | some none ↦ pure tt
      | some (some owner) ↦ if not (owner.kind == "BitcoinNetwork") then pure tt else do
        namespace ← namespace_of (as_object obj)
        reply ← read (K.get_network namespace owner.name)
        elim reply [ err e ↦ pure tt | ok network ↦ enqueue (object network.meta) ]
    ]

  unfoldable pub add_bitcoin_network : AnyObject → Exec K.World (Unit {0})
  unfolding enqueue
  add_bitcoin_network obj = enqueue obj

  unfoldable pub update_bitcoin_network : AnyObject → AnyObject → Exec K.World (Unit {0})
  unfolding enqueue
  update_bitcoin_network old new = enqueue new

  unfoldable pub update_object : AnyObject → AnyObject → Exec K.World (Unit {0})
  unfolding handle_object
  update_object old new = handle_object new

  unfoldable pub is_queue_processed : K.World → Bool
  is_queue_processed w = nat_eqb (K.queue_len w) 0

  -- `for i := 0; i < threads; i++ { go ... }`
  unfoldable pub start_workers : ℕ → Exec K.World (Unit {0})
  start_workers zero = pure tt
  start_workers (suc n) = do emit start_worker K.start_worker; start_workers n

  -- `Run`, up to the wait for the stop channel. The result is the error returned.
  unfoldable pub run_controller : Synced K.World → ℕ → Exec K.World (Option Error)
  unfolding start_workers
  run_controller c threads w =
      let (synced, w') = K.wait_for_cache_sync (synced_functions c) w in
      if not synced
      then pure (some (foreign "fmt.Errorf" "failed to wait for caches to sync")) w'
      else (start_workers threads >> pure none) w'

module _ (K : Cluster) {Json : Type 0} (R : BitcoinClient K.World Json) where
  -- What a worker does with an item.
  unfoldable pub process_item : Item → Exec K.World (Unit {0})
  process_item (other_item what) = do
    error_log "Got something from the queue which is not a string"
    emit (queue_done (other_item what)) (K.queue_done (other_item what))
  process_item (key_item key) = do
    done ← do_recon K R key
    if done then emit (queue_done (key_item key)) (K.queue_done (key_item key)) else pure tt

  -- The loop of a worker, for a number of rounds at most. `true`: it has returned.
  unfoldable pub worker_main_loop : ℕ → Exec K.World Bool
  unfolding process_item
  worker_main_loop zero w = pure false w
  worker_main_loop (suc rounds) w =
      let ((item, shutdown), w') = K.queue_get w in
      let rest = worker_main_loop rounds in
      if shutdown then pure true w' else (process_item item >> rest) w'
