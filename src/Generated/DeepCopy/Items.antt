-- ===== src/Generated/DeepCopy/Items.antt =====
-- The deep copy of a list of networks.
use bitcoin_controller.Base.{
  ◌≡◌, refl, ap, ap₂, ◌∙◌, ℕ, suc, List, [], ◌∷◌, ◌++◌, map, length, Option, none, some, arith, All,
}
use bitcoin_controller.Kube.{ObjectMeta}
use bitcoin_controller.Apis.{BitcoinNetwork, BitcoinNetworkNode, Slice, slice}
use bitcoin_controller.Generated.DeepCopy.{
  Array, Heap, array_at, NetworkRef, status_deep_copy_into, network_deep_copy_into,
  items_deep_copy_into, slice_at, network_at,
}
use bitcoin_controller.Generated.DeepCopy.Fresh.{IsLive, array_at-append, array_at-last}

pub length-snoc : (h : Heap) (a : Array) → length (h ++ a ∷ []) ≡ suc (length h)
length-snoc [] a = refl
length-snoc (b ∷ h) a = ap suc (length-snoc h a)

-- A copy leaves what is there, and where it is.
status_keeps :
    (s other : Option ℕ) (h : Heap)
    → IsLive other h
    → IsLive other (status_deep_copy_into s h).1
      × (slice_at other (status_deep_copy_into s h).1 ≡ slice_at other h)
unfolding status_deep_copy_into
status_keeps none other h l = (l, refl)
status_keeps (some s) none h l = (tt, refl)
status_keeps (some s) (some o) h l = (
  omega (arith, l, length-snoc h (array_at s h)),
  ap slice (array_at-append o h (array_at s h) l),
)

status_copies :
    (s : Option ℕ) (h : Heap)
    → let copy = status_deep_copy_into s h in
      IsLive copy.0 copy.1 × (slice_at copy.0 copy.1 ≡ slice_at s h)
unfolding status_deep_copy_into
status_copies none h = (tt, refl)
status_copies (some s) h =
    (omega (arith, length-snoc h (array_at s h)), ap slice (array_at-last h (array_at s h)))

-- The arrays of the networks are on the heap.
abbrev pub AreLive : List NetworkRef → Heap → Type 0
AreLive ns h = All (λ n. IsLive n.nodes h) ns

module _ (copy_meta : ObjectMeta → ObjectMeta) (same : (m : ObjectMeta) → copy_meta m ≡ m) where
  pub items_keep :
      (ns : List NetworkRef) (other : Option ℕ) (h : Heap)
      → IsLive other h
      → slice_at other (items_deep_copy_into copy_meta ns h).1 ≡ slice_at other h
  unfolding items_deep_copy_into network_deep_copy_into
  items_keep [] other h l = refl
  items_keep (n ∷ ns) other h l =
      let kept = status_keeps n.nodes other h l in
      items_keep ns other (status_deep_copy_into n.nodes h).1 kept.0 ∙ kept.1

  networks_keep :
      (s : Option ℕ) (ns : List NetworkRef) (h : Heap)
      → AreLive ns h
      → AreLive ns (status_deep_copy_into s h).1
        × (map (λ n. network_at n (status_deep_copy_into s h).1) ns ≡ map (λ n. network_at n h) ns)
  networks_keep s [] h l = (tt, refl)
  networks_keep s (n ∷ ns) h l =
      let here = status_keeps s n.nodes h l.0 in
      let rest = networks_keep s ns h l.1 in
      ((here.0, rest.0), ap₂ (λ x xs. with_slice n x ∷ xs) here.1 rest.1)
    where
      with_slice : NetworkRef → Slice BitcoinNetworkNode → BitcoinNetwork
      with_slice n x = record {
        type_meta = n.type_meta;
        meta = n.meta;
        spec = n.spec;
        status = record { nodes = x };
      }

  -- The copies of the items of a list, on the heap that they are left on, have the values of the
  -- items, if the arrays of these are on the heap and a copy of `ObjectMeta` is equal to the
  -- original.
  pub items_deep_copy_into-values :
      (ns : List NetworkRef) (h : Heap)
      → AreLive ns h
      → let copies = items_deep_copy_into copy_meta ns h in
        map (λ n. network_at n copies.1) copies.0 ≡ map (λ n. network_at n h) ns
  unfolding items_deep_copy_into network_deep_copy_into
  items_deep_copy_into-values [] h l = refl
  items_deep_copy_into-values (n ∷ ns) h l =
      let copy = status_deep_copy_into n.nodes h in
      let copied = status_copies n.nodes h in
      let kept = networks_keep n.nodes ns h l.1 in
      let first = items_keep ns copy.0 copy.1 copied.0 ∙ copied.1 in
      let rest = items_deep_copy_into-values ns copy.1 kept.0 ∙ kept.1 in
      rw (same n.meta) (
        ap₂
          (λ x xs.
            record {
              type_meta = n.type_meta;
              meta = n.meta;
              spec = n.spec;
              status = record { nodes = x };
            }
            ∷ xs)
          first rest)
