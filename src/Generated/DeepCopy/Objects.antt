-- ===== src/Generated/DeepCopy/Objects.antt =====
-- The deep copy of a list as an object.
use bitcoin_controller.Base.{
  ◌≡◌, refl, subst, ℕ, ◌≤◌, List, [], ◌∷◌, length, Option, none, some, arith, All,
}
use bitcoin_controller.Kube.{ObjectMeta}
use bitcoin_controller.Apis.{Slice, nil_slice, slice, elements}
use bitcoin_controller.Generated.DeepCopy.{
  Heap, NetworkRef, status_deep_copy_into, network_deep_copy_into, items_deep_copy_into, slice_at,
  ListRef, RuntimeObject, network_object, list_object, list_deep_copy_into, list_deep_copy,
  list_deep_copy_object, list_at, list_value, object_at,
}
use bitcoin_controller.Generated.DeepCopy.Fresh.{IsLive}
use bitcoin_controller.Generated.DeepCopy.Items.{
  AreLive, items_deep_copy_into-values, items_keep, length-snoc,
}

-- A slice that uses no array of the heap.
abbrev pub IsNew : Option ℕ → Heap → Type 0
IsNew none h = Unit
IsNew (some i) h = length h ≤ i

-- The networks of an object.
abbrev pub networks_of : RuntimeObject → List NetworkRef
networks_of (network_object n) = n ∷ []
networks_of (list_object l) = elements l.items

status_deep_copy_into-IsNew :
    (s : Option ℕ) (h : Heap)
    → IsNew (status_deep_copy_into s h).0 h × (length h ≤ length (status_deep_copy_into s h).1)
unfolding status_deep_copy_into
status_deep_copy_into-IsNew none h = (tt, omega arith)
status_deep_copy_into-IsNew (some i) h = (omega arith, omega (arith, length-snoc h _))

IsNew-older : (s : Option ℕ) (h h' : Heap) → length h ≤ length h' → IsNew s h' → IsNew s h
IsNew-older none h h' l n = tt
IsNew-older (some i) h h' l n = omega (arith, l, n)

module _ (copy_meta : ObjectMeta → ObjectMeta) where
  items_deep_copy_into-IsNew :
      (ns : List NetworkRef) (h h' : Heap)
      → length h ≤ length h'
      → All (λ n. IsNew n.nodes h) (items_deep_copy_into copy_meta ns h').0
  unfolding items_deep_copy_into network_deep_copy_into
  items_deep_copy_into-IsNew [] h h' l = tt
  items_deep_copy_into-IsNew (n ∷ ns) h h' l =
      let first = status_deep_copy_into-IsNew n.nodes h' in
      (
        IsNew-older (status_deep_copy_into n.nodes h').0 h h' l first.0,
        items_deep_copy_into-IsNew ns h (status_deep_copy_into n.nodes h').1
            (omega (arith, l, first.1)),
      )

  -- The copy of a list whose arrays are on the heap is an object that has the value of the list, with
  -- nil items for nil items, if a copy of `ObjectMeta` is equal to the original. The networks in it
  -- use no array that was there before, and every slice that was there before keeps its value.
  pub list_deep_copy_object-values :
      ((m : ObjectMeta) → copy_meta m ≡ m)
      → (l : ListRef) (other : Option ℕ) (h : Heap) → AreLive (elements l.items) h
      → IsLive other h
      → let copy = list_deep_copy_object copy_meta (some l) h in
        (o : RuntimeObject) × (copy.0 ≡ some o)
        × (object_at o copy.1 ≡ list_value (list_at l h))
        × All (λ n. IsNew n.nodes h) (networks_of o)
        × (slice_at other copy.1 ≡ slice_at other h)
  unfolding list_deep_copy_object list_deep_copy list_deep_copy_into
  list_deep_copy_object-values same l other h a b = by_items l.items refl
    where
      by_items :
          (items : Slice NetworkRef)
          → l.items ≡ items
          → let copy = list_deep_copy_object copy_meta (some l) h in
            (o : RuntimeObject) × (copy.0 ≡ some o)
            × (object_at o copy.1 ≡ list_value (list_at l h))
            × All (λ n. IsNew n.nodes h) (networks_of o)
            × (slice_at other copy.1 ≡ slice_at other h)
      by_items nil_slice e =
          (list_object l, ground (arith, e), ground (arith, e), rw e tt, ground (arith, e))
      by_items (slice ns) e =
          let copies = items_deep_copy_into copy_meta ns h in
          (
            list_object (record l { items = slice copies.0 }),
            ground (arith, e),
            ground (
              arith,
              e,
              items_deep_copy_into-values copy_meta same ns h
                  (subst (λ s. AreLive (elements s) h) e a),
            ),
            items_deep_copy_into-IsNew ns h h (omega arith),
            ground (arith, e, items_keep copy_meta same ns other h b),
          )
