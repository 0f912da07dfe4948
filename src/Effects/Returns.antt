-- ===== src/Effects/Returns.antt =====
-- Code that returns in every world, without a panic.
use bitcoin_controller.Base.{◌≡◌, refl, Bool, true, false, some, arith, if◌then◌else◌}
use bitcoin_controller.Effects.{Exec, pure, ◌>>=◌}

abbrev pub Returns : {W A : Type 0} → Exec W A → Type 0
Returns {W} {A} m = (w : W) → (a : A) × ((m w).result ≡ some a)

module _ {W A B : Type 0} where
  pub Returns-bind :
      (m : Exec W A) (f : A → Exec W B) → Returns m → ((a : A) → Returns (f a)) → Returns (m >>= f)
  Returns-bind m f p q w =
      let (a, e) = p w in let (b, g) = q a (m w).world in (b, ground (arith, e, g))

module _ {W A : Type 0} where
  pub Returns-pure : (a : A) → Returns {W = W} (pure a)
  Returns-pure a w = (a, refl)

  pub Returns-if :
      (b : Bool) (m n : Exec W A) → Returns m → Returns n → Returns (if b then m else n)
  Returns-if true m n p q = p
  Returns-if false m n p q = q
