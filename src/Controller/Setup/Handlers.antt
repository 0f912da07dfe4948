-- ===== src/Controller/Setup/Handlers.antt =====
-- What the handlers that `NewController` registers do when they are called.
use bitcoin_controller.Base.{
  ◌≡◌, refl, String, ◌==◌, List, [], ◌∷◌, Option, none, some, ◌⊎◌, inl, inr, Bool-cases, arith,
  true,
}
use bitcoin_controller.Kube.{OwnerReference, AnyObject, object, not_object}
use bitcoin_controller.Apis.{BitcoinNetwork}
use bitcoin_controller.Client.{Result, ok, err}
use bitcoin_controller.Effects.{Call, queue_add, Exec, unlogged}
use bitcoin_controller.Cluster.{Cluster}
use bitcoin_controller.Controller.Queue.{
  enqueue, handle_object, add_bitcoin_network, update_bitcoin_network, update_object,
}
use bitcoin_controller.Controller.Setup.{HandlerFuncs, Controller}

-- One key is added to the queue, or none, and there is no other call but to the log.
abbrev pub OneKey : List Call → Type 0
OneKey cs = (unlogged cs ≡ []) ⊎ ((key : String) × (unlogged cs ≡ queue_add key ∷ []))

abbrev pub Wakes : {W : Type 0} → Exec W (Unit {0}) → Type 0
Wakes {W} m = (w : W) → OneKey (m w).calls

-- A predicate of the value that is there, if there is one.
abbrev pub Every : {A : Type 0} → (A → Type 0) → Option A → Type 0
Every P none = Unit
Every P (some a) = P a

-- The functions of a registration, those of them that there are.
pub record Quiet {W : Type 0} (h : HandlerFuncs W) : Type 0 where
  pub adds : Every (λ f. (obj : AnyObject) → Wakes (f obj)) h.add_func
  pub updates : Every (λ f. (old new : AnyObject) → Wakes (f old new)) h.update_func
  pub no_delete : h.delete_func ≡ none

module _ (K : Cluster) where
  enqueue-Wakes : (obj : AnyObject) → Wakes (enqueue K obj)
  unfolding enqueue
  enqueue-Wakes obj w = by_key (K.meta_namespace_key obj) refl
    where
      by_key : (r : Result String) → K.meta_namespace_key obj ≡ r → OneKey (enqueue K obj w).calls
      by_key (ok key) e = inr (key, ground (arith, e))
      by_key (err x) e = inl (ground (arith, e))

  handle_object-Wakes : (obj : AnyObject) → Wakes (handle_object K obj)
  unfolding handle_object
  handle_object-Wakes not_object w = by_controller (K.get_controller_of none) refl
    where
      by_controller :
          (r : Option (Option OwnerReference))
          → K.get_controller_of none ≡ r
          → OneKey (handle_object K not_object w).calls
      by_controller none e = inl (ground (arith, e))
      by_controller (some none) e = inl (ground (arith, e))
      by_controller (some (some owner)) e = inl (ground (arith, e))
  handle_object-Wakes (object m) w = by_controller (K.get_controller_of (some m)) refl
    where
      by_reply :
          (owner : OwnerReference)
          → K.get_controller_of (some m) ≡ some (some owner)
          → (owner.kind == "BitcoinNetwork") ≡ true
          → (r : Result BitcoinNetwork) → (K.get_network m.namespace owner.name w).0 ≡ r
          → OneKey (handle_object K (object m) w).calls
      by_reply owner e t (err x) f = inl (ground (arith, e, t, f))
      by_reply owner e t (ok network) f =
          let w₁ = (K.get_network m.namespace owner.name w).1 in
          elim (enqueue-Wakes (object network.meta) w₁) [
            | inl g ↦ inl (ground (arith, e, t, f, g))
            | inr (key, g) ↦ inr (key, ground (arith, e, t, f, g))
          ]

      by_controller :
          (r : Option (Option OwnerReference))
          → K.get_controller_of (some m) ≡ r
          → OneKey (handle_object K (object m) w).calls
      by_controller none e = inl (ground (arith, e))
      by_controller (some none) e = inl (ground (arith, e))
      by_controller (some (some owner)) e = elim (Bool-cases (owner.kind == "BitcoinNetwork")) [
        | inl t ↦ by_reply owner e t (K.get_network m.namespace owner.name w).0 refl
        | inr t ↦ inl (ground (arith, e, t))
      ]

  pub add_bitcoin_network-Wakes : (obj : AnyObject) → Wakes (add_bitcoin_network K obj)
  unfolding add_bitcoin_network
  add_bitcoin_network-Wakes obj = enqueue-Wakes obj

  pub update_bitcoin_network-Wakes :
      (old new : AnyObject) → Wakes (update_bitcoin_network K old new)
  unfolding update_bitcoin_network
  update_bitcoin_network-Wakes old new = enqueue-Wakes new

  pub update_object-Wakes : (old new : AnyObject) → Wakes (update_object K old new)
  unfolding update_object
  update_object-Wakes old new = handle_object-Wakes new
