-- ===== src/Base/Int.antt =====
-- Signed integers over the native numbers, under the library's names (its ℤ stands on the unary ℕ).
use Prim.Native.Nat.{ℕ, suc, ◌+◌}
use mathlib.Core.Path.{◌≡◌}
use mathlib.Core.Logic.{◌↔◌}
use mathlib.Core.Bool.{Bool, true, false}
use native.Mathlib.Omega.{arith}
use bitcoin_controller.Base.Tests.{ltb, nat_eqb}

-- `negsuc n` is -(n + 1).
pub data ℤ : Type 0 where
  pos : ℕ → ℤ
  negsuc : ℕ → ℤ

abbrev pub pos_part : ℤ → ℕ
pos_part (pos n) = n
pos_part (negsuc n) = 0

abbrev pub neg_part : ℤ → ℕ
neg_part (pos n) = 0
neg_part (negsuc n) = suc n

abbrev pub ltb_ℤ : ℤ → ℤ → Bool
ltb_ℤ a b = ltb (pos_part a + neg_part b) (pos_part b + neg_part a)

abbrev pub ℤ_eqb : ℤ → ℤ → Bool
ℤ_eqb (pos m) (pos n) = nat_eqb m n
ℤ_eqb (pos m) (negsuc n) = false
ℤ_eqb (negsuc m) (pos n) = false
ℤ_eqb (negsuc m) (negsuc n) = nat_eqb m n

pub ℤ_eqb_iff : (a b : ℤ) → (ℤ_eqb a b ≡ true) ↔ (a ≡ b)
ℤ_eqb_iff a b = ground arith
