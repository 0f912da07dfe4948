-- ===== src/Effects.antt =====
-- Code that runs in a world: it returns or panics, leaves another world, and has made calls.
pub mod Loops
pub mod Returns
pub mod Makes
use bitcoin_controller.Base.{String, List, [], ◌∷◌, ◌++◌, Option, none, some, ◌≡◌, refl, arith}
use bitcoin_controller.Kube.{Service, StatefulSet, EventType}
use bitcoin_controller.Apis.{BitcoinNetwork}
use bitcoin_controller.Client.{Config, Request, Result}

-- An item of the work queue, an `interface{}`: a text, or something else.
pub data Item : Type 0 where
  key_item : String → Item
  other_item : String → Item

-- What the controller asks of the world outside, the reads of its caches left out. The clients of
-- a namespace have it as first argument.
pub data Call : Type 0 where
  create_service : String → Service → Call
  create_stateful_set : String → StatefulSet → Call
  update_stateful_set : String → StatefulSet → Call
  update_status : String → BitcoinNetwork → Call
  get_secret : String → String → Call
  record_event : BitcoinNetwork → EventType → String → String → Call
  get_added_nodes : Config → Call
  add_node : String → Config → Call
  remove_node : String → Config → Call
  queue_add : String → Call
  queue_done : Item → Call
  start_worker : Call
  -- `klog.Error` and `klog.Errorf`
  log_error : String → Call

-- `none` is a panic.
pub record Run (W A : Type 0) : Type 0 where
  pub result : Option A
  pub world : W
  pub calls : List Call

abbrev pub Exec : Type 0 → Type 0 → Type 0
Exec W A = W → Run W A

module _ {W : Type 0} where
  abbrev pub pure : {A : Type 0} → A → Exec W A
  pure a w = record { result = some a; world = w; calls = [] }

  abbrev pub panic : {A : Type 0} → Exec W A
  panic w = record { result = none; world = w; calls = [] }

  -- The calls made before come first.
  abbrev pub after : {A : Type 0} → List Call → Run W A → Run W A
  after cs r = record { result = r.result; world = r.world; calls = cs ++ r.calls }

  infixl 5 ◌>>=◌ ◌>>◌
  abbrev pub ◌>>=◌ : {A B : Type 0} → Exec W A → (A → Exec W B) → Exec W B
  ◌>>=◌ m f w = elim (m w).result [
    | none ↦ record { result = none; world = (m w).world; calls = (m w).calls }
    | some a ↦ after (m w).calls (f a (m w).world)
  ]

  abbrev pub ◌>>◌ : {A B : Type 0} → Exec W A → Exec W B → Exec W B
  m >> n = m >>= λ _. n

  -- A request that is a call.
  abbrev pub request : {A : Type 0} → Call → Request W A → Exec W (Result A)
  request c r w = record { result = some (r w).0; world = (r w).1; calls = c ∷ [] }

  -- A read of a cache.
  abbrev pub read : {A : Type 0} → Request W A → Exec W (Result A)
  read r w = record { result = some (r w).0; world = (r w).1; calls = [] }

  abbrev pub emit : Call → (W → W) → Exec W (Unit {0})
  emit c f w = record { result = some tt; world = f w; calls = c ∷ [] }

  abbrev pub error_log : String → Exec W (Unit {0})
  error_log message = emit (log_error message) (λ w. w)

-- All calls but those to the log.
abbrev pub unlogged : List Call → List Call
unlogged [] = []
unlogged (log_error message ∷ cs) = unlogged cs
unlogged (c ∷ cs) = c ∷ unlogged cs

pub unlogged-append : (xs ys : List Call) → unlogged (xs ++ ys) ≡ unlogged xs ++ unlogged ys
unlogged-append [] ys = refl
unlogged-append (log_error message ∷ xs) ys = unlogged-append xs ys
unlogged-append (c ∷ xs) ys = ground (arith, unlogged-append xs ys)
