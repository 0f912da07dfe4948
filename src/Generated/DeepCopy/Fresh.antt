-- ===== src/Generated/DeepCopy/Fresh.antt =====
-- What a deep copy shares with what was there before.
use bitcoin_controller.Base.{
  ◌≡◌, refl, ap, ◌∙◌, ℕ, zero, suc, ◌<◌, ◌≢◌, [], ◌∷◌, ◌++◌, length, Option, none, some, arith,
}
use bitcoin_controller.Kube.{ObjectMeta}
use bitcoin_controller.Apis.{BitcoinNetwork, BitcoinNetworkNode, Slice, slice}
use bitcoin_controller.Generated.DeepCopy.{
  Array, Heap, array_at, assign, NetworkRef, status_deep_copy_into, network_deep_copy_into,
  slice_at, network_at,
}

-- A slice whose array there is.
abbrev pub IsLive : Option ℕ → Heap → Type 0
IsLive none h = Unit
IsLive (some i) h = i < length h

pub array_at-append :
    (i : ℕ) (h : Heap) (a : Array) → i < length h → array_at i (h ++ a ∷ []) ≡ array_at i h
unfolding array_at
array_at-append i [] a l = absurd (omega (arith, l))
array_at-append zero (b ∷ h) a l = refl
array_at-append (suc i) (b ∷ h) a l = array_at-append i h a (omega (arith, l))

pub array_at-last : (h : Heap) (a : Array) → array_at (length h) (h ++ a ∷ []) ≡ a
unfolding array_at
array_at-last [] a = refl
array_at-last (b ∷ h) a = array_at-last h a

array_at-assign :
    (i j : ℕ) (b : Array) (h : Heap) → i ≢ j → array_at i (assign j b h) ≡ array_at i h
unfolding array_at assign
array_at-assign i j b [] ne = refl
array_at-assign zero zero b (a ∷ h) ne = absurd (ne refl)
array_at-assign zero (suc j) b (a ∷ h) ne = refl
array_at-assign (suc i) zero b (a ∷ h) ne = refl
array_at-assign (suc i) (suc j) b (a ∷ h) ne = array_at-assign i j b h (λ e. ne (ap suc e))

-- The slice that is copied, the copy after a change of what was there, and another one after a change
-- of the copy.
status_deep_copy_into-fresh :
    (s other : Option ℕ) (h : Heap) (i : ℕ) (b : Array)
    → IsLive s h
    → IsLive other h
    → i < length h
    → let copy = status_deep_copy_into s h in
      (slice_at copy.0 copy.1 ≡ slice_at s h)
      × (slice_at copy.0 (assign i b copy.1) ≡ slice_at s h)
      × (slice_at other (assign (length h) b copy.1) ≡ slice_at other h)
unfolding status_deep_copy_into
status_deep_copy_into-fresh none none h i b l k m = (refl, refl, refl)
status_deep_copy_into-fresh none (some o) h i b l k m =
    (refl, refl, ap slice (array_at-assign o (length h) b h (omega (arith, k))))
status_deep_copy_into-fresh (some s) none h i b l k m = (
  ap slice (array_at-last h (array_at s h)),
  ap slice (array_at-assign (length h) i b _ (omega (arith, m)) ∙ array_at-last h (array_at s h)),
  refl,
)
status_deep_copy_into-fresh (some s) (some o) h i b l k m = (
  ap slice (array_at-last h (array_at s h)),
  ap slice (array_at-assign (length h) i b _ (omega (arith, m)) ∙ array_at-last h (array_at s h)),
  ap slice
      (array_at-assign o (length h) b _ (omega (arith, k)) ∙ array_at-append o h (array_at s h) k),
)

module _ (copy_meta : ObjectMeta → ObjectMeta) (same : (m : ObjectMeta) → copy_meta m ≡ m) where
  abbrev with_nodes : NetworkRef → Slice BitcoinNetworkNode → BitcoinNetwork
  with_nodes n s = record {
    type_meta = n.type_meta;
    meta = n.meta;
    spec = n.spec;
    status = record { nodes = s };
  }

  -- For networks whose arrays are on the heap, and a copy of `ObjectMeta` that is equal to the
  -- original: a deep copy has the network's value and keeps it when an array that was there before is
  -- assigned to, and a network that was there before keeps its value when the array of the copy is
  -- assigned to.
  pub network_deep_copy_into-fresh :
      (n other : NetworkRef) (h : Heap) (i : ℕ) (b : Array)
      → IsLive n.nodes h
      → IsLive other.nodes h
      → i < length h
      → let copy = network_deep_copy_into copy_meta n h in
        (network_at copy.0 copy.1 ≡ network_at n h)
        × (network_at copy.0 (assign i b copy.1) ≡ network_at n h)
        × (network_at other (assign (length h) b copy.1) ≡ network_at other h)
  unfolding network_deep_copy_into
  network_deep_copy_into-fresh n other h i b l k m =
      let slices = status_deep_copy_into-fresh n.nodes other.nodes h i b l k m in
      rw (network_deep_copy_into, same n.meta)
        (ap (with_nodes n) slices.0, ap (with_nodes n) slices.1, ap (with_nodes other) slices.2)
