-- ===== src/Controller/Queue/Ownership.antt =====
-- From a dependent object back to the key of its network.
use bitcoin_controller.Base.{
  ◌≡◌, refl, ap, ap₂, Bool-cases, String, true, ◌==◌, eq_iff, [], ◌∷◌, Option, some, none, arith,
  inl, inr,
}
use bitcoin_controller.Kube.{OwnerReference, ObjectMeta, AnyObject, object}
use bitcoin_controller.Apis.{BitcoinNetwork, with_kind}
use bitcoin_controller.Client.{ok, err, Error}
use bitcoin_controller.Cluster.{Cluster, RefersToOwner, HasKey}
use bitcoin_controller.Effects.{Run, queue_add}
use bitcoin_controller.Controller.Create.{owned_meta, new_stateful_set, new_headless_service}
use bitcoin_controller.Controller.Queue.{handle_object, update_object}

module _ (K : Cluster) where
  -- The run that puts one key into the queue.
  abbrev pub queued : String → K.World → Run K.World (Unit {0})
  queued key w = record { result = some tt; world = K.queue_add key w; calls = queue_add key ∷ [] }

  handle_object-owned :
      RefersToOwner K
      → (m : ObjectMeta) (network cached : BitcoinNetwork) (w : K.World)
      → m.owner_references ≡ K.new_controller_ref network.meta (with_kind "BitcoinNetwork") ∷ []
      → m.namespace ≡ network.meta.namespace
      → (K.get_network network.meta.namespace network.meta.name w).0 ≡ ok cached
      → (k : HasKey K cached.meta)
      → handle_object K (object m) w
        ≡ queued k.key (K.get_network network.meta.namespace network.meta.name w).1
  unfolding handle_object
  handle_object-owned L m network cached w e g f k =
      let ref = K.new_controller_ref network.meta (with_kind "BitcoinNetwork") in
      let named = L.ref_name network.meta (with_kind "BitcoinNetwork") in
      let kind : (ref.kind == "BitcoinNetwork") ≡ true =
        (eq_iff ref.kind "BitcoinNetwork").1
          (L.ref_kind network.meta (with_kind "BitcoinNetwork")) in
      let same : K.get_network m.namespace ref.name w
          ≡ K.get_network network.meta.namespace network.meta.name w =
        ap₂ (λ ns n. K.get_network ns n w) g named in
      ground
        (arith, L.ref_found m network.meta (with_kind "BitcoinNetwork") e, kind, same, k.key_formed)

  new_stateful_set-meta :
      (network : BitcoinNetwork) (sts svc : String)
      → (new_stateful_set K network sts svc).meta ≡ owned_meta K network sts
  unfolding new_stateful_set
  new_stateful_set-meta network sts svc = ground arith

  new_headless_service-meta :
      (network : BitcoinNetwork) (svc : String)
      → (new_headless_service K network svc).meta ≡ owned_meta K network svc
  unfolding new_headless_service
  new_headless_service-meta network svc = refl

  -- A change of the stateful set or of the service that was created for a network puts the key of
  -- that network into the queue, if the cache has it, and does nothing else.
  pub update_object-created :
      RefersToOwner K
      → (network cached : BitcoinNetwork) (sts svc : String) (old : AnyObject) (w : K.World)
      → (K.get_network network.meta.namespace network.meta.name w).0 ≡ ok cached
      → (k : HasKey K cached.meta)
      → let after = queued k.key (K.get_network network.meta.namespace network.meta.name w).1 in
        (update_object K old (object (new_stateful_set K network sts svc).meta) w ≡ after)
        × (update_object K old (object (new_headless_service K network svc).meta) w ≡ after)
  unfolding update_object
  update_object-created L network cached sts svc old w e k =
      let set = new_stateful_set-meta network sts svc in
      let service = new_headless_service-meta network svc in
      (
        handle_object-owned L (new_stateful_set K network sts svc).meta network cached w
            (ap (λ m. m.owner_references) set) (ap (λ m. m.namespace) set) e k,
        handle_object-owned L (new_headless_service K network svc).meta network cached w
            (ap (λ m. m.owner_references) service) (ap (λ m. m.namespace) service) e k,
      )

  -- A change of an object without a controller, with a controller of another kind, or with a
  -- network that is not in the cache, puts nothing into the queue.
  handle_object-ignored :
      (m : ObjectMeta) (r : Option OwnerReference) (w : K.World)
      → K.get_controller_of (some m) ≡ some r
      → ((owner : OwnerReference)
          → r ≡ some owner
          → owner.kind ≡ "BitcoinNetwork"
          → (e : Error) × ((K.get_network m.namespace owner.name w).0 ≡ err e))
      → ((handle_object K (object m) w).result ≡ some tt)
        × ((handle_object K (object m) w).calls ≡ [])
  unfolding handle_object
  handle_object-ignored m none w e h = ground arith
  handle_object-ignored m (some owner) w e h = elim (Bool-cases (owner.kind == "BitcoinNetwork")) [
    | inl t ↦ ground (arith, e, t, (h owner refl ((eq_iff owner.kind "BitcoinNetwork").0 t)).1)
    | inr t ↦ ground (arith, e, t)
  ]
