-- ===== src/Effects/Makes.antt =====
-- Code whose calls all satisfy a predicate, in every world, also if it panics.
use bitcoin_controller.Base.{
  ◌≡◌, refl, Bool, true, false, List, [], ◌∷◌, ◌++◌, Option, none, some, All, if◌then◌else◌,
}
use bitcoin_controller.Client.{Request}
use bitcoin_controller.Effects.{Call, Exec, pure, request, read, emit, ◌>>=◌}
use bitcoin_controller.Effects.Loops.{for_each}

abbrev pub Makes : {W A : Type 0} → (Call → Type 0) → Exec W A → Type 0
Makes {W} P m = (w : W) → All P (m w).calls

pub All-append : (P : Call → Type 0) (xs ys : List Call) → All P xs → All P ys → All P (xs ++ ys)
All-append P [] ys h k = k
All-append P (x ∷ xs) ys h k = (h.0, All-append P xs ys h.1 k)

module _ {W : Type 0} (P : Call → Type 0) where
  pub Makes-bind :
      {A B : Type 0} (m : Exec W A) (f : A → Exec W B)
      → Makes P m
      → ((a : A) → Makes P (f a))
      → Makes P (m >>= f)
  Makes-bind {A} m f h k w = by_result (m w).result refl
    where
      by_result : (o : Option A) → (m w).result ≡ o → All P ((m >>= f) w).calls
      by_result none e = rw (e, ◌>>=◌) (h w)
      by_result (some a) e =
          rw (e, ◌>>=◌) (All-append P (m w).calls (f a (m w).world).calls (h w) (k a (m w).world))

  -- What follows may rely on what the first part returns.
  pub Makes-result :
      {A B : Type 0} (m : Exec W A) (f : A → Exec W B) (Q : A → Type 0)
      → Makes P m
      → ((w : W) (a : A) → (m w).result ≡ some a → Q a)
      → ((a : A) → Q a → Makes P (f a))
      → Makes P (m >>= f)
  Makes-result {A} m f Q h r k w = by_result (m w).result refl
    where
      by_result : (o : Option A) → (m w).result ≡ o → All P ((m >>= f) w).calls
      by_result none e = rw (e, ◌>>=◌) (h w)
      by_result (some a) e =
          rw (e, ◌>>=◌)
            (All-append P (m w).calls (f a (m w).world).calls (h w) (k a (r w a e) (m w).world))

  pub Makes-pure : {A : Type 0} (a : A) → Makes {W = W} P (pure a)
  Makes-pure a w = tt

  pub Makes-read : {A : Type 0} (r : Request W A) → Makes P (read r)
  Makes-read r w = tt

  pub Makes-request : {A : Type 0} (c : Call) (r : Request W A) → P c → Makes P (request c r)
  Makes-request c r p w = (p, tt)

  pub Makes-emit : (c : Call) (f : W → W) → P c → Makes P (emit c f)
  Makes-emit c f p w = (p, tt)

  pub Makes-if :
      {A : Type 0} (b : Bool) (m n : Exec W A)
      → Makes P m
      → Makes P n
      → Makes P (if b then m else n)
  Makes-if true m n h k = h
  Makes-if false m n h k = k

  pub Makes-for_each :
      {A : Type 0} (body : A → Exec W (Unit {0})) (xs : List A)
      → ((x : A) → Makes P (body x))
      → Makes P (for_each body xs)
  unfolding for_each
  Makes-for_each body [] h = Makes-pure tt
  Makes-for_each body (x ∷ xs) h =
      Makes-bind (body x) (λ _. for_each body xs) (h x) (λ _. Makes-for_each body xs h)
