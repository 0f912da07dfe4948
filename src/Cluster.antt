-- ===== src/Cluster.antt =====
-- The world in which the controller runs, and what it is made of outside of this repository: the
-- Kubernetes clients and the listers of the informers' caches, the helpers of apimachinery and
-- client-go, the work queue, and the order in which Go ranges over a map.
use bitcoin_controller.Base.{ℕ, ◌≡◌, String, Bool, List, [], ◌∷◌, Option, some}
use bitcoin_controller.Kube.{
  GroupVersionKind, OwnerReference, ObjectMeta, Service, StatefulSet, Pod, Secret, EventType,
  AnyObject, object,
}
use bitcoin_controller.Apis.{BitcoinNetwork}
use bitcoin_controller.Client.{Error, Result, ok, Request}
use bitcoin_controller.Effects.{Item}
use mathlib.Core.List.{Perm}

-- A request takes the world on: between two requests anything else may have happened.
pub record Cluster : Type 1 where
  pub World : Type 0
  -- Listers: namespace, name.
  pub get_network : String → String → Request World BitcoinNetwork
  pub get_service : String → String → Request World Service
  pub get_stateful_set : String → String → Request World StatefulSet
  -- `podLister.Pods(namespace)`: `none` is a nil lister.
  pub pods : String → Option (String → Request World Pod)
  -- The API server. The first argument is the namespace.
  pub create_service : String → Service → Request World Service
  pub create_stateful_set : String → StatefulSet → Request World StatefulSet
  pub update_stateful_set : String → StatefulSet → Request World StatefulSet
  pub update_status : String → BitcoinNetwork → Request World BitcoinNetwork
  pub get_secret : String → String → Request World Secret
  pub record_event : BitcoinNetwork → EventType → String → String → World → World
  -- `errors.IsNotFound`, `errors.IsAlreadyExists`
  pub is_not_found : Error → Bool
  pub is_already_exists : Error → Bool
  -- `metav1.NewControllerRef`, and `metav1.GetControllerOf` of a value that may be a nil interface:
  -- the outer `none` is a panic, the inner one no controller.
  pub new_controller_ref : ObjectMeta → GroupVersionKind → OwnerReference
  pub get_controller_of : Option ObjectMeta → Option (Option OwnerReference)
  -- `cache.MetaNamespaceKeyFunc`, `cache.SplitMetaNamespaceKey`
  pub meta_namespace_key : AnyObject → Result String
  pub split_key : String → Result (String × String)
  -- The work queue. `Get` also says whether the queue has been shut down.
  pub queue_add : String → World → World
  pub queue_len : World → ℕ
  pub queue_get : World → (Item × Bool) × World
  pub queue_done : Item → World → World
  -- `cache.WaitForCacheSync` with the functions that are asked, and `go wait.Until(...)`
  pub wait_for_cache_sync : List (World → Bool) → World → Bool × World
  pub start_worker : World → World
  -- The keys of a map in the order of one `range` loop that starts in this world.
  pub range_order : World → List String → List String

-- What is documented of the parts that the theorems rely on, each law on its own.
module _ (K : Cluster) where
  open K use {range_order, new_controller_ref, get_controller_of, meta_namespace_key, split_key}

  -- A `range` loop meets every key once, in some order.
  pub record RangesOnce : Type 0 where
    pub range-perm : (w : K.World) (m : List String) → Perm (range_order w m) m

  -- The controller reference names its owner, and is found again on an object that it controls.
  pub record RefersToOwner : Type 0 where
    pub ref_kind : (o : ObjectMeta) (k : GroupVersionKind) → (new_controller_ref o k).kind ≡ k.kind
    pub ref_name : (o : ObjectMeta) (k : GroupVersionKind) → (new_controller_ref o k).name ≡ o.name
    pub ref_found :
        (m o : ObjectMeta) (k : GroupVersionKind)
        → m.owner_references ≡ new_controller_ref o k ∷ []
        → get_controller_of (some m) ≡ some (some (new_controller_ref o k))

  -- The key of an object with a proper name: it splits into the object's namespace and name.
  pub record HasKey (m : ObjectMeta) : Type 0 where
    pub key : String
    pub key_formed : meta_namespace_key (object m) ≡ ok key
    pub key_splits : split_key key ≡ ok (m.namespace, m.name)
