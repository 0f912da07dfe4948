-- ===== src/Base/Lists.antt =====
-- Lists measured by native numbers, and lists of texts as the sets that Go keeps in a map.
use Prim.Native.Nat.{ℕ, zero, suc}
use Prim.Native.String.{String}
use mathlib.Core.Path.{◌≡◌, refl, ◌∙◌}
use mathlib.Core.Bool.{Bool, false, ◌||◌, Bool-set}
use mathlib.Core.List.{List, [], ◌∷◌, ◌++◌, Perm, Permᴰ}
use mathlib.Core.Logic.{∥∥₁_elim}
use native.Mathlib.Omega.{arith}
use text.Mathlib.Text.{◌==◌}
use text.Mathlib.TextEquality.{eq_iff}
use bitcoin_controller.Base.Tests.{if◌then◌else◌}

module _ {ℓ} {A : Type ℓ} where
  abbrev pub length : List A → ℕ
  length [] = 0
  length (x ∷ xs) = suc (length xs)

  abbrev pub replicate : ℕ → A → List A
  replicate zero x = []
  replicate (suc n) x = x ∷ replicate n x

  -- A predicate of every element.
  abbrev pub All {κ} : (A → Type κ) → List A → Type κ
  All P [] = Unit
  All P (x ∷ xs) = P x × All P xs

  -- The elements that pass a test.
  abbrev pub filter : (A → Bool) → List A → List A
  filter p [] = []
  filter p (x ∷ xs) = let rest = filter p xs in if p x then x ∷ rest else rest

abbrev pub contains : List String → String → Bool
contains [] a = false
contains (x ∷ xs) a = (a == x) || contains xs a

-- `m[k] = struct{}{}` on a map that is used as a set.
abbrev pub insert_key : String → List String → List String
insert_key k m = if contains m k then m else k ∷ m

abbrev pub NodupKeys : List String → Type 0
NodupKeys [] = Unit
NodupKeys (x ∷ xs) = (contains xs x ≡ false) × NodupKeys xs

pub contains-insert_key :
    (k : String) (m : List String) (j : String)
    → contains (insert_key k m) j ≡ ((j == k) || contains m j)
contains-insert_key k m j = ground (arith, eq_iff j k)

pub insert_key-NodupKeys : (k : String) (m : List String) → NodupKeys m → NodupKeys (insert_key k m)
insert_key-NodupKeys k m h = ground arith

pub contains-append :
    (xs ys : List String) (j : String) → contains (xs ++ ys) j ≡ (contains xs j || contains ys j)
contains-append [] ys j = refl
contains-append (x ∷ xs) ys j = ground (arith, contains-append xs ys j)

pub contains-filter :
    (p : String → Bool) (xs : List String) (j : String)
    → contains (filter p xs) j ≡ (if p j then contains xs j else false)
contains-filter p [] j = ground arith
contains-filter p (x ∷ xs) j = ground (arith, contains-filter p xs j, eq_iff j x)

pub filter-NodupKeys :
    (p : String → Bool) (xs : List String) → NodupKeys xs → NodupKeys (filter p xs)
filter-NodupKeys p [] h = tt
filter-NodupKeys p (x ∷ xs) h = ground (arith, filter-NodupKeys p xs h.1, contains-filter p xs x)

contains-permᴰ : {xs ys : List String} → Permᴰ xs ys → (j : String) → contains xs j ≡ contains ys j
contains-permᴰ Permᴰ.nil j = refl
contains-permᴰ (Permᴰ.cons {a = a} {b = b} e p) j = ground (arith, contains-permᴰ p j, e)
contains-permᴰ (Permᴰ.swap e f) j = ground (arith, e, f)
contains-permᴰ (Permᴰ.trans p q) j = contains-permᴰ p j ∙ contains-permᴰ q j

-- Two lists of the same elements in another order contain the same keys.
pub contains-perm :
    {xs ys : List String} → Perm xs ys → (j : String) → contains xs j ≡ contains ys j
contains-perm p j = ∥∥₁_elim p (Bool-set _ _) (λ q. contains-permᴰ q j)

NodupKeys-prop : (xs : List String) → IsProp (NodupKeys xs)
NodupKeys-prop [] = hlevel
NodupKeys-prop (x ∷ xs) = hlevel (Bool-set, NodupKeys-prop xs)

permᴰ-NodupKeys : {xs ys : List String} → Permᴰ xs ys → NodupKeys xs → NodupKeys ys
permᴰ-NodupKeys Permᴰ.nil h = tt
permᴰ-NodupKeys (Permᴰ.cons {b = b} e p) h =
    (ground (arith, contains-permᴰ p b, e), permᴰ-NodupKeys p h.1)
permᴰ-NodupKeys (Permᴰ.swap {a' = a'} {b' = b'} e f) h =
    ground (arith, e, f, eq_iff a' b', eq_iff b' a')
permᴰ-NodupKeys (Permᴰ.trans p q) h = permᴰ-NodupKeys q (permᴰ-NodupKeys p h)

-- So does having no key twice.
pub perm-NodupKeys : {xs ys : List String} → Perm xs ys → NodupKeys xs → NodupKeys ys
perm-NodupKeys {ys} p h = ∥∥₁_elim p (NodupKeys-prop ys) (λ q. permᴰ-NodupKeys q h)
