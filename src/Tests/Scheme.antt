-- ===== src/Tests/Scheme.antt =====
-- A scheme that is the list of the kinds that it knows.
use bitcoin_controller.Base.{
  String, ◌==◌, Bool, ◌&&◌, ◌||◌, List, [], ◌∷◌, contains, Option, none, some, false,
}
use bitcoin_controller.Kube.{GroupVersion, GroupVersionKind}
use bitcoin_controller.Client.{Error}
use bitcoin_controller.Controller.Setup.{Controller}
use bitcoin_controller.Generated.Scheme.{SchemeLibrary}

abbrev Kinds : Type 0
Kinds = List (GroupVersion × List String)

abbrev knows : Kinds → GroupVersionKind → Bool
knows [] k = false
knows ((gv, kinds) ∷ s) k =
    (gv.group == k.group && (gv.version == k.version && contains kinds k.kind)) || knows s k

abbrev applied : List (Kinds → Option Error × Kinds) → Kinds → Option Error × Kinds
applied [] s = (none, s)
applied (f ∷ fs) s =
    let rest = applied fs (f s).1 in elim (f s).0 [ none ↦ rest | some e ↦ (some e, (f s).1) ]

abbrev schemes : SchemeLibrary
schemes = record {
  Scheme = Kinds;
  recognizes = knows;
  add_known_types = λ gv kinds s. (gv, kinds) ∷ s;
  add_to_group_version = λ gv s. (gv, "ListOptions" ∷ "WatchEvent" ∷ []) ∷ s;
  run_builder = applied;
}
