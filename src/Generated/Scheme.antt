-- ===== src/Generated/Scheme.antt =====
-- internal/apis/bitcoincontroller/v1/register.go, and
-- internal/generated/clientset/versioned/scheme/register.go with its counterpart in
-- internal/generated/clientset/versioned/fake/register.go: how the types come into a scheme, which is
-- that of a library.
pub mod Registered
use bitcoin_controller.Base.{String, Bool, List, [], ◌∷◌, Option, none, some}
use bitcoin_controller.Kube.{GroupVersion, GroupVersionKind}
use bitcoin_controller.Apis.{scheme_group_version}
use bitcoin_controller.Client.{Error}

-- `runtime.Scheme` and `runtime.SchemeBuilder`. The kind of an object is the name of its type.
pub record SchemeLibrary : Type 1 where
  pub Scheme : Type 0
  pub recognizes : Scheme → GroupVersionKind → Bool
  pub add_known_types : GroupVersion → List String → Scheme → Scheme
  -- `metav1.AddToGroupVersion`
  pub add_to_group_version : GroupVersion → Scheme → Scheme
  -- The method `AddToScheme` of a builder with these functions.
  pub run_builder : List (Scheme → Option Error × Scheme) → Scheme → Option Error × Scheme

module _ (L : SchemeLibrary) where
  unfoldable pub add_known_types : L.Scheme → Option Error × L.Scheme
  add_known_types s =
      let known =
        L.add_known_types scheme_group_version ("BitcoinNetwork" ∷ "BitcoinNetworkList" ∷ []) s in
      (none, L.add_to_group_version scheme_group_version known)

  -- `SchemeBuilder.AddToScheme` of the package v1
  unfoldable pub v1_add_to_scheme : L.Scheme → Option Error × L.Scheme
  unfolding add_known_types
  v1_add_to_scheme = L.run_builder (add_known_types ∷ [])

  -- `localSchemeBuilder.AddToScheme`
  unfoldable pub add_to_scheme : L.Scheme → Option Error × L.Scheme
  unfolding v1_add_to_scheme
  add_to_scheme = L.run_builder (v1_add_to_scheme ∷ [])

  -- `utilruntime.Must`: none is a panic.
  abbrev must : Option Error × L.Scheme → Option L.Scheme
  must (none, s) = some s
  must (some e, s) = none

  -- `init`, of the new scheme of the package
  unfoldable pub init : L.Scheme → Option L.Scheme
  unfolding add_to_scheme
  init s = must (add_to_scheme (L.add_to_group_version (record { group = ""; version = "v1" }) s))

  -- The same in the fake package, for the scheme of its tracker.
  unfoldable pub fake_add_to_scheme : L.Scheme → Option Error × L.Scheme
  unfolding v1_add_to_scheme
  fake_add_to_scheme = L.run_builder (v1_add_to_scheme ∷ [])

  unfoldable pub fake_init : L.Scheme → Option L.Scheme
  unfolding fake_add_to_scheme
  fake_init s =
      must (fake_add_to_scheme (L.add_to_group_version (record { group = ""; version = "v1" }) s))
