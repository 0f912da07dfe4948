-- ===== src/Generated/Factory/Once.antt =====
-- How often an informer is made and started.
use mathlib.Core.List.{Perm}
use bitcoin_controller.Base.{
  ◌≡◌, ◌==◌, refl, ap, ◌∙◌, ℤ, String, eq_iff, Bool, true, ◌||◌, ◌&&◌, not, List, [], ◌∷◌, map,
  contains, insert_key, contains-insert_key, contains-perm, Option, none, some, arith,
}
use bitcoin_controller.Generated.Factory.{
  Factory, map_get, map_set, informer_for, types, start_loop, start, started_of, sync_all,
  wait_for_cache_sync, resync_of,
}

map_get-set :
    {A : Type 0} (k : String) (v : A) (m : List (String × A)) → map_get k (map_set k v m) ≡ some v
unfolding map_get map_set
map_get-set k v [] = ground (arith, eq_iff k k)
map_get-set k v ((j, u) ∷ m) = ground (arith, map_get-set k v m)

map_set-keys :
    {A : Type 0} (k : String) (v : A) (m : List (String × A)) (j : String)
    → contains (map (λ e. e.0) (map_set k v m)) j ≡ ((j == k) || contains (map (λ e. e.0) m) j)
unfolding map_set
map_set-keys k v [] j = refl
map_set-keys k v ((i, u) ∷ m) j =
    ground (arith, map_set-keys k v m j, eq_iff i k, eq_iff j k, eq_iff j i)

map_get-contains :
    {A : Type 0} (k : String) (v : A) (m : List (String × A))
    → map_get k m ≡ some v
    → contains (map (λ e. e.0) m) k ≡ true
unfolding map_get
map_get-contains k v [] e = ground arith
map_get-contains k v ((i, u) ∷ m) e = ground (arith, map_get-contains k v m, eq_iff i k, eq_iff k i)

start_loop-marks :
    (order started : List String) (j : String)
    → contains (start_loop order started).1 j ≡ (contains started j || contains order j)
unfolding start_loop
start_loop-marks [] started j = ground arith
start_loop-marks (type ∷ order) started j = ground (
  arith,
  start_loop-marks order started j,
  start_loop-marks order (insert_key type started) j,
  contains-insert_key type started j,
  eq_iff j type,
)

start_loop-runs :
    (order started : List String) (j : String)
    → contains (start_loop order started).0 j ≡ (contains order j && not (contains started j))
unfolding start_loop
start_loop-runs [] started j = refl
start_loop-runs (type ∷ order) started j = ground (
  arith,
  start_loop-runs order started j,
  start_loop-runs order (insert_key type started) j,
  contains-insert_key type started j,
  eq_iff j type,
)

-- Nothing is started a second time.
start_loop-idle :
    (order started : List String)
    → ((j : String) → contains order j ≡ true → contains started j ≡ true)
    → start_loop order started ≡ ([], started)
unfolding start_loop
start_loop-idle [] started h = refl
start_loop-idle (type ∷ order) started h =
    let here = h type (ground (arith, eq_iff type type)) in
    rw here (start_loop-idle order started (λ j e. h j (ground (arith, e))))

started_of-contains :
    (order started : List String) (j : String)
    → contains (started_of order started) j ≡ (contains order j && contains started j)
unfolding started_of
started_of-contains [] started j = refl
started_of-contains (type ∷ order) started j =
    ground (arith, started_of-contains order started j, eq_iff j type)

sync_all-types :
    (synced : String → Bool) (order : List String) → map (λ e. e.0) (sync_all synced order) ≡ order
unfolding sync_all
sync_all-types synced [] = refl
sync_all-types synced (type ∷ order) = ap (λ xs. type ∷ xs) (sync_all-types synced order)

-- A range meets every key of a map once.
abbrev pub EachOnce : (List String → List String) → Type 0
EachOnce range = (m : List String) → Perm (range m) m

start-run :
    {Client Tweak Informer : Type 0} (range : List String → List String)
    (f : Factory Client Tweak Informer)
    → (start range f).0 ≡ (start_loop (range (types f)) f.started_informers).0
unfolding start
start-run range f = refl

module _ {Client Tweak Informer : Type 0} (f : Factory Client Tweak Informer) where
  -- Whoever asks for the informer of a type again gets the same one, whatever function they bring to
  -- make one, and the factory stays as it is.
  pub informer_for-again :
      (type : String) (new_func other : Client → ℤ → Informer)
      → let first = informer_for type new_func f in informer_for type other first.1 ≡ first
  unfolding informer_for
  informer_for-again type new_func other = by_entry (map_get type f.informers) refl
    where
      by_entry :
          (o : Option Informer)
          → map_get type f.informers ≡ o
          → informer_for type other (informer_for type new_func f).1 ≡ informer_for type new_func f
      by_entry (some informer) e = ground (arith, e)
      by_entry none e =
          let made =
            new_func f.client (resync_of (map_get type f.custom_resync) f.default_resync) in
          ground (arith, e, map_get-set type made f.informers)

  -- A new informer has the resync period of its type, or the default.
  pub informer_for-new :
      (type : String) (new_func : Client → ℤ → Informer)
      → map_get type f.informers ≡ none
      → (informer_for type new_func f).0
        ≡ new_func f.client (resync_of (map_get type f.custom_resync) f.default_resync)
  unfolding informer_for
  informer_for-new type new_func e = ground (arith, e)

  -- Who asks for an informer adds its type, if it is a new one.
  pub informer_for-types :
      (type : String) (new_func : Client → ℤ → Informer) (j : String)
      → contains (types (informer_for type new_func f).1) j ≡ ((j == type) || contains (types f) j)
  unfolding informer_for
  informer_for-types type new_func j = by_entry (map_get type f.informers) refl
    where
      by_entry :
          (o : Option Informer)
          → map_get type f.informers ≡ o
          → contains (types (informer_for type new_func f).1) j
            ≡ ((j == type) || contains (types f) j)
      by_entry (some i) e = ground (arith, e, map_get-contains type i f.informers e, eq_iff j type)
      by_entry none e =
          let made =
            new_func f.client (resync_of (map_get type f.custom_resync) f.default_resync) in
          ground (arith, e, map_set-keys type made f.informers j)

  pub informer_for-started :
      (type : String) (new_func : Client → ℤ → Informer)
      → (informer_for type new_func f).1.started_informers ≡ f.started_informers
  unfolding informer_for
  informer_for-started type new_func = ground arith

  module _ (range : List String → List String) (once : EachOnce range) where
    start-marks :
        (j : String)
        → contains (start range f).1.started_informers j
          ≡ (contains f.started_informers j || contains (types f) j)
    unfolding start
    start-marks j =
        start_loop-marks (range (types f)) f.started_informers j
        ∙ ap (λ b. contains f.started_informers j || b) (contains-perm (once (types f)) j)

    start-types : types (start range f).1 ≡ types f
    unfolding start
    start-types = refl

    -- `Start` runs the informers of the types that were asked for and are not started.
    pub start-runs :
        (j : String)
        → contains (start range f).0 j
          ≡ (contains (types f) j && not (contains f.started_informers j))
    unfolding start
    start-runs j =
        start_loop-runs (range (types f)) f.started_informers j
        ∙ ap (λ b. b && not (contains f.started_informers j)) (contains-perm (once (types f)) j)

    -- After `Start`, another `Start` runs no informer, in whatever order it goes through them, and
    -- `WaitForCacheSync` waits for the informers of all types that were asked for, and for no others.
    pub start-once :
        (again : List String → List String)
        → EachOnce again
        → (synced : String → Bool) (j : String)
        → ((start again (start range f).1).0 ≡ [])
          × (contains (map (λ e. e.0) (wait_for_cache_sync again synced (start range f).1)) j
              ≡ contains (types f) j)
    unfolding wait_for_cache_sync
    start-once again each synced j = (
      start-run again (start range f).1
          ∙ ap (λ r. r.0)
              (start_loop-idle (again (types (start range f).1)) (start range f).1.started_informers
                (λ t e. ground (
                  arith,
                  e,
                  start-marks t,
                  contains-perm (each (types (start range f).1)) t,
                  start-types,
                ))),
      rw (sync_all-types synced, start-types)
          (ground (
            arith,
            contains-perm (each (started_of (again (types f)) (start range f).1.started_informers))
                j,
            started_of-contains (again (types f)) (start range f).1.started_informers j,
            contains-perm (each (types f)) j,
            start-marks j,
          )),
    )
