-- ===== src/Controller/Connect/Calls.antt =====
-- The RPC calls of `connectNode`, whatever the daemon answers.
use mathlib.Core.List.{Perm}
use mathlib.Core.List.Perm
use bitcoin_controller.Base.{
  ◌≡◌, ap, ap₂, fun_ext, Bool, ◌||◌, ◌==◌, NodupKeys, perm-NodupKeys, contains-perm,
  contains-insert_key, ◌∙◌, String, not, List, [], ◌∷◌, ◌++◌, map, filter, contains, if◌then◌else◌,
  arith,
}
use bitcoin_controller.Client.{Config, AddedNode, BitcoinClient, ok}
use bitcoin_controller.Cluster.{Cluster, RangesOnce}
use bitcoin_controller.Effects.{get_added_nodes, add_node, remove_node, unlogged, unlogged-append}
use bitcoin_controller.Effects.Loops.{for_each, for_each-nil, for_each-cons}
use bitcoin_controller.Controller.Connect.Rounds.{
  contains-added_keys, added_map-NodupKeys, add_missing-Total, remove_stale-Total, added_map,
  adding, removing, connect_node-rounds,
}
use bitcoin_controller.Controller.Connect.{added_keys, add_missing, remove_stale, connect_node}

module _ (K : Cluster) {Json : Type 0} (R : BitcoinClient K.World Json) (c : Config) where
  add_missing-calls :
      (added : List String) (node : String) (w : K.World)
      → unlogged (add_missing K R c added node w).calls
        ≡ (if not (contains added node) then add_node node c ∷ [] else [])
  unfolding add_missing
  add_missing-calls added node w = ground arith

  remove_stale-calls :
      (nodes : List String) (node : String) (w : K.World)
      → unlogged (remove_stale K R c nodes node w).calls
        ≡ (if not (contains nodes node) then remove_node node c ∷ [] else [])
  unfolding remove_stale
  remove_stale-calls nodes node w = ground arith

  add_loop-calls :
      (added xs : List String) (w : K.World)
      → unlogged (for_each (add_missing K R c added) xs w).calls
        ≡ map (λ x. add_node x c) (filter (λ x. not (contains added x)) xs)
  add_loop-calls added [] w =
      rw (for_each-nil (add_missing K R c added) (add_missing-Total K R c added))
  add_loop-calls added (x ∷ xs) w =
      let next = (add_missing K R c added x w).world in
      rw
        (
          for_each-cons (add_missing K R c added) (add_missing-Total K R c added),
          unlogged-append,
          add_missing-calls added x w,
          add_loop-calls added xs next,
        )
        (ground arith)

  remove_loop-calls :
      (nodes xs : List String) (w : K.World)
      → unlogged (for_each (remove_stale K R c nodes) xs w).calls
        ≡ map (λ x. remove_node x c) (filter (λ x. not (contains nodes x)) xs)
  remove_loop-calls nodes [] w =
      rw (for_each-nil (remove_stale K R c nodes) (remove_stale-Total K R c nodes))
  remove_loop-calls nodes (x ∷ xs) w =
      let next = (remove_stale K R c nodes x w).world in
      rw
        (
          for_each-cons (remove_stale K R c nodes) (remove_stale-Total K R c nodes),
          unlogged-append,
          remove_stale-calls nodes x w,
          remove_loop-calls nodes xs next,
        )
        (ground arith)

  -- A node that is in the answer of the daemon, or the daemon itself.
  abbrev pub listed : List AddedNode → String → Bool
  listed ns x = x == c.server_ip || contains (map (λ n. n.node_ip) ns) x

  contains-added_map :
      (ns : List AddedNode) (x : String) → contains (added_map c ns) x ≡ listed ns x
  contains-added_map ns x =
      ground
        (arith, contains-insert_key c.server_ip (added_keys ns []) x, contains-added_keys ns [] x)

  -- If the daemon lists its added nodes, and a range over a map goes once through each key,
  -- `connectNode` asks for them, then adds the nodes of the list that are neither listed by the
  -- daemon nor the daemon itself, and then removes those that are listed by it (or the daemon itself)
  -- and not in the list. It removes none twice, and adds none twice if the list has none twice. It
  -- does so whether the calls in between succeed or fail, and makes no other call but to the log.
  pub connect_node-calls :
      RangesOnce K
      → (nodes : List String) (w : K.World) (ns : List AddedNode)
      → (R.get_added_nodes c w).0 ≡ ok ns
      → (xs ys : List String) × Perm xs nodes
        × NodupKeys ys
        × ((x : String) → contains ys x ≡ listed ns x)
        × (unlogged (connect_node K R c nodes w).calls
            ≡ get_added_nodes c
              ∷ (map (λ x. add_node x c) (filter (λ x. not (listed ns x)) xs)
                  ++ map (λ x. remove_node x c) (filter (λ x. not (contains nodes x)) ys)))
  connect_node-calls L nodes w ns e =
      let added = added_map c ns in
      let w₁ = (R.get_added_nodes c w).1 in
      let w₂ = (adding K R c added nodes w₁).world in
      (
        K.range_order w₁ nodes,
        K.range_order w₂ added,
        L.range-perm w₁ nodes,
        perm-NodupKeys (Perm.symm (L.range-perm w₂ added)) (added_map-NodupKeys c ns),
        (λ x. contains-perm (L.range-perm w₂ added) x ∙ contains-added_map ns x),
        rw (connect_node-rounds K R c nodes w ns e) (
            ap (◌∷◌ (get_added_nodes c)) (
              unlogged-append (adding K R c added nodes w₁).calls
                (removing K R c nodes added w₂).calls
              ∙ ap₂ ◌++◌
                  (add_loop-calls added (K.range_order w₁ nodes) w₁
                    ∙ ap
                        (λ p.
                          map (λ x. add_node x c)
                            (filter (λ x. not (p x)) (K.range_order w₁ nodes)))
                        (fun_ext (contains-added_map ns)))
                  (remove_loop-calls nodes (K.range_order w₂ added) w₂))),
      )
