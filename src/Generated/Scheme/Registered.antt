-- ===== src/Generated/Scheme/Registered.antt =====
-- What a scheme knows once the types have been added, and what `NewController` makes of that.
use bitcoin_controller.Base.{◌≡◌, String, true, List, [], ◌∷◌, contains, Option, none}
use bitcoin_controller.Kube.{GroupVersion, GroupVersionKind}
use bitcoin_controller.Apis.{scheme_group_version}
use bitcoin_controller.Client.{Error}
use bitcoin_controller.Cluster.{Cluster}
use bitcoin_controller.Controller.Setup.{Controller}
use bitcoin_controller.Generated.Scheme.{SchemeLibrary, add_known_types}

-- What is documented of schemes and their builders: types that are added are known, and stay known,
-- and a builder applies its functions in turn, up to the first that fails.
pub record Registers (L : SchemeLibrary) : Type 0 where
  pub knows :
      (gv : GroupVersion) (kinds : List String) (s : L.Scheme) (kind : String)
      → contains kinds kind ≡ true
      → L.recognizes
          (L.add_known_types gv kinds s)
          (record { group = gv.group; version = gv.version; kind = kind })
        ≡ true
  pub keeps :
      (gv : GroupVersion) (s : L.Scheme) (k : GroupVersionKind)
      → L.recognizes s k ≡ true
      → L.recognizes (L.add_to_group_version gv s) k ≡ true
  pub runs_none : (s : L.Scheme) → L.run_builder [] s ≡ (none, s)
  pub runs_next :
      (f : L.Scheme → Option Error × L.Scheme) (fs : List (L.Scheme → Option Error × L.Scheme))
      (s : L.Scheme)
      → (f s).0 ≡ none
      → L.run_builder (f ∷ fs) s ≡ L.run_builder fs (f s).1

module _ (L : SchemeLibrary) (laws : Registers L) where
  abbrev known : L.Scheme → L.Scheme
  known s =
      L.add_to_group_version scheme_group_version
        (L.add_known_types scheme_group_version ("BitcoinNetwork" ∷ "BitcoinNetworkList" ∷ []) s)
