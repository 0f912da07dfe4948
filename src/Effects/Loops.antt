-- ===== src/Effects/Loops.antt =====
-- A loop over a list, for its effects.
use bitcoin_controller.Base.{◌≡◌, refl, List, [], ◌∷◌, some, arith}
use bitcoin_controller.Effects.{Exec, pure, after, ◌>>◌}

module _ {W : Type 0} {A : Type 0} where
  unfoldable pub for_each : (A → Exec W (Unit {0})) → List A → Exec W (Unit {0})
  for_each body [] = pure tt
  for_each body (x ∷ xs) = do body x; for_each body xs

  -- The body returns at every element and in every world.
  abbrev pub Total : (A → Exec W (Unit {0})) → Type 0
  Total body = (x : A) (w : W) → (body x w).result ≡ some tt

  module _ (body : A → Exec W (Unit {0})) (total : Total body) where
    -- A round, and then the rest of the loop.
    pub for_each-cons :
        (x : A) (xs : List A) (w : W)
        → for_each body (x ∷ xs) w ≡ after (body x w).calls (for_each body xs (body x w).world)
    unfolding for_each
    for_each-cons x xs w = ground (arith, total x w)

    pub for_each-nil : (w : W) → for_each body [] w ≡ pure tt w
    unfolding for_each
    for_each-nil w = refl

    pub for_each-total : (xs : List A) (w : W) → (for_each body xs w).result ≡ some tt
    for_each-total [] w = rw for_each-nil
    for_each-total (x ∷ xs) w = rw for_each-cons (for_each-total xs (body x w).world)

    -- An invariant of the body that follows the list is one of the loop.
    pub for_each-inv :
        (P : List A → W → Type 0)
        → ((x : A) (xs : List A) (w : W) → P (x ∷ xs) w → P xs (body x w).world)
        → (xs : List A) (w : W) → P xs w
        → P [] (for_each body xs w).world
    for_each-inv P keep [] w h = rw for_each-nil h
    for_each-inv P keep (x ∷ xs) w h =
        rw for_each-cons (for_each-inv P keep xs (body x w).world (keep x xs w h))
