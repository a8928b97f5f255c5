-- ===== src/DataFlowGraph/Migration.antt =====
-- The order of migration (`migrationOrder` of lang/ts/src/data-flow-graph.ts). The fuel counts the
-- rounds of its loop: one for each name.
use tramli.Prelude.{
  String, ℕ, zero, suc, Bool, true, false, none, some, get_or, List, [], ◌∷◌, find, any, all,
  length, contains, add, add_all, delete, Dict, lookup, insert, keys, truthy, ◌==◌,
}
use tramli.Availability.{Seen}
use tramli.DataFlowGraph.{NodeInfo, DataFlowGraph}

add_type : String → List NodeInfo → Seen → Seen
add_type type [] m = m
add_type type (n ∷ ns) m =
    add_type type ns (insert n.name (add type (get_or [] (lookup n.name m))) m)

-- The types of each node's name.
unfoldable pub types_by_name : Dict (List NodeInfo) → Seen → Seen
unfolding add_type
types_by_name [] m = m
types_by_name ((type, nodes) ∷ rest) m = types_by_name rest (add_type type nodes m)

-- The types that are there from the start.
initial_types : Dict (List NodeInfo) → List String → List String
initial_types [] s = s
initial_types ((type, nodes) ∷ rest) s =
    initial_types rest
      (elim (any (λ n. n.name == "initial") nodes) [ true ↦ add type s | false ↦ s ])

module _ (requires produces : Seen) where
  -- All that the node of this name requires is available.
  unfoldable pub ready : List String → String → Bool
  ready available name = all (λ r. contains r available) (get_or [] (lookup name requires))

  -- The loop: the first name that is ready; where none is, all that remain.
  unfoldable pub order_from : ℕ → List String → List String → List String
  order_from zero available remaining = []
  order_from (suc fuel) available remaining = elim (truthy (find (ready available) remaining)) [
    | none ↦ remaining
    | some next ↦
        next
        ∷ order_from fuel (add_all (get_or [] (lookup next produces)) available)
            (delete next remaining)
  ]

-- The names of the graph, but for `initial`.
unfoldable pub migrated_names : Seen → Seen → List String
migrated_names requires produces =
    delete "initial" (add_all (keys produces) (add_all (keys requires) []))

order_with : Seen → Seen → List String → List String
order_with requires produces available =
    order_from requires produces (length (migrated_names requires produces)) available
      (migrated_names requires produces)

unfoldable pub migration_order : DataFlowGraph → List String
unfolding initial_types order_with
migration_order g =
    order_with (types_by_name g.nodes.consumers []) (types_by_name g.nodes.producers [])
      (initial_types g.nodes.producers [])
