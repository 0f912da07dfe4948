-- ===== src/Generated/Factory.antt =====
-- internal/generated/informers/externalversions/factory.go: the shared informer factory. The types
-- of objects are texts; the map of the started informers holds no other value than true, and is the
-- list of its keys. What `newFunc` makes is an informer.
pub mod Once
use bitcoin_controller.Base.{
  ℤ, String, ◌==◌, Bool, true, List, [], ◌∷◌, Option, none, some, contains, insert_key, map,
  if◌then◌else◌,
}

module _ {A : Type 0} where
  -- `m[k]`, and `m[k] = v`
  unfoldable pub map_get : String → List (String × A) → Option A
  map_get k [] = none
  map_get k ((j, v) ∷ m) = if j == k then some v else map_get k m

  unfoldable pub map_set : String → A → List (String × A) → List (String × A)
  map_set k v [] = (k, v) ∷ []
  map_set k v ((j, u) ∷ m) =
      let rest = map_set k v m in if j == k then (j, v) ∷ m else (j, u) ∷ rest

pub record Factory (Client Tweak Informer : Type 0) : Type 0 where
  pub client : Client
  pub namespace : String
  pub tweak_list_options : Option Tweak
  pub default_resync : ℤ
  pub custom_resync : List (String × ℤ)
  pub informers : List (String × Informer)
  pub started_informers : List String

abbrev pub SharedInformerOption : Type 0 → Type 0 → Type 0 → Type 0
SharedInformerOption Client Tweak Informer =
    Factory Client Tweak Informer → Factory Client Tweak Informer

set_all : List (String × ℤ) → List (String × ℤ) → List (String × ℤ)
unfolding map_set
set_all [] m = m
set_all ((k, v) ∷ config) m = set_all config (map_set k v m)

abbrev pub resync_of : Option ℤ → ℤ → ℤ
resync_of none d = d
resync_of (some r) d = r

-- The types whose informers are run, in order, and the started ones afterwards.
unfoldable pub start_loop : List String → List String → List String × List String
start_loop [] started = ([], started)
start_loop (type ∷ order) started =
    let again = start_loop order started in
    let first = start_loop order (insert_key type started) in
    if contains started type then again else (type ∷ first.0, first.1)

-- The first loop of `WaitForCacheSync`.
unfoldable pub started_of : List String → List String → List String
started_of [] started = []
started_of (type ∷ order) started =
    let rest = started_of order started in if contains started type then type ∷ rest else rest

unfoldable pub sync_all : (String → Bool) → List String → List (String × Bool)
sync_all synced [] = []
sync_all synced (type ∷ order) = (type, synced type) ∷ sync_all synced order

module _ {Client Tweak Informer : Type 0} where
  -- The argument is the map in the order of its range.
  unfoldable pub with_custom_resync_config :
      List (String × ℤ) → SharedInformerOption Client Tweak Informer
  unfolding set_all map_set
  with_custom_resync_config config f = record f { custom_resync = set_all config f.custom_resync }

  unfoldable pub with_tweak_list_options : Tweak → SharedInformerOption Client Tweak Informer
  with_tweak_list_options tweak f = record f { tweak_list_options = some tweak }

  unfoldable pub with_namespace : String → SharedInformerOption Client Tweak Informer
  with_namespace namespace f = record f { namespace = namespace }

  apply_all :
      List (SharedInformerOption Client Tweak Informer) → SharedInformerOption Client Tweak Informer
  apply_all [] f = f
  apply_all (opt ∷ options) f = apply_all options (opt f)

  unfoldable pub new_factory_with_options :
      Client → ℤ → List (SharedInformerOption Client Tweak Informer) → Factory Client Tweak Informer
  unfolding apply_all
  new_factory_with_options client resync options = apply_all options (record {
    client = client;
    namespace = "";
    tweak_list_options = none;
    default_resync = resync;
    custom_resync = [];
    informers = [];
    started_informers = [];
  })

  unfoldable pub new_factory : Client → ℤ → Factory Client Tweak Informer
  unfolding new_factory_with_options
  new_factory client resync = new_factory_with_options client resync []

  unfoldable pub new_filtered_factory : Client → ℤ → String → Tweak → Factory Client Tweak Informer
  unfolding new_factory_with_options with_namespace with_tweak_list_options
  new_filtered_factory client resync namespace tweak =
      new_factory_with_options client resync
        (with_namespace namespace ∷ with_tweak_list_options tweak ∷ [])

  -- The informer for a type, and the factory afterwards.
  unfoldable pub informer_for :
      String
      → (Client → ℤ → Informer)
      → Factory Client Tweak Informer
      → Informer × Factory Client Tweak Informer
  unfolding map_get map_set
  informer_for type new_func f = elim (map_get type f.informers) [
    | some informer ↦ (informer, f)
    | none ↦
        let informer =
          new_func f.client (resync_of (map_get type f.custom_resync) f.default_resync) in
        (informer, record f { informers = map_set type informer f.informers })
  ]

  -- The types that there are informers for.
  abbrev pub types : Factory Client Tweak Informer → List String
  types f = map (λ e. e.0) f.informers

  -- `range` is the order in which Go goes through a map.
  unfoldable pub start :
      (List String → List String)
      → Factory Client Tweak Informer
      → List String × Factory Client Tweak Informer
  unfolding start_loop
  start range f =
      let (run, started) = start_loop (range (types f)) f.started_informers in
      (run, record f { started_informers = started })

  -- `synced` is what `cache.WaitForCacheSync` returns for the informer of a type.
  unfoldable pub wait_for_cache_sync :
      (List String → List String)
      → (String → Bool)
      → Factory Client Tweak Informer
      → List (String × Bool)
  unfolding started_of sync_all
  wait_for_cache_sync range synced f =
      sync_all synced (range (started_of (range (types f)) f.started_informers))
