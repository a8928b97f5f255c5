-- ===== src/DataFlowGraph/Hints.antt =====
-- Hints that the graph gives (`pruningHints`, `parallelismHints` and `testScaffold` of
-- lang/ts/src/data-flow-graph.ts).
use tramli.Prelude.{
  String, ◌==◌, Bool, not, ◌&&◌, if◌then◌else◌, get_or, List, [], ◌∷◌, ◌++◌, map, filter, any,
  contains, add, add_all, Dict, lookup, insert,
}
use tramli.Availability.{Seen}
use tramli.DataFlowGraph.{NodeInfo, DataFlowGraph}

consumed_by : String → List NodeInfo → Seen → Seen
consumed_by type [] m = m
consumed_by type (n ∷ ns) m =
    consumed_by type ns (insert n.from_state (add type (get_or [] (lookup n.from_state m))) m)

consumed_at : Dict (List NodeInfo) → Seen → Seen
unfolding consumed_by
consumed_at [] m = m
consumed_at ((type, nodes) ∷ rest) m = consumed_at rest (consumed_by type nodes m)

prunable : Seen → List String → String → List String
prunable consumed available state =
    filter (λ type. not (contains type (get_or [] (lookup state consumed)))) available

add_hint : String → List String → Seen → Seen
add_hint state [] hints = hints
add_hint state (t ∷ ts) hints = insert state (t ∷ ts) hints

hints_from : Seen → Seen → Seen → Seen
unfolding prunable add_hint
hints_from consumed [] hints = hints
hints_from consumed ((state, available) ∷ rest) hints =
    hints_from consumed rest (add_hint state (prunable consumed available state) hints)

unfoldable pub pruning_hints : DataFlowGraph → Seen
unfolding consumed_at hints_from
pruning_hints g = hints_from (consumed_at g.nodes.consumers []) g.available_at_state []

-- The types of the map that have a node of that name.
unfoldable pub types_of : String → Dict (List NodeInfo) → List String
types_of name [] = []
types_of name ((type, nodes) ∷ rest) =
    let later = types_of name rest in
    if any (λ n. n.name == name) nodes then type ∷ later else later

unfoldable pub names_in : Dict (List NodeInfo) → List String → List String
names_in [] s = s
names_in ((type, nodes) ∷ rest) s = names_in rest (add_all (map (λ n. n.name) nodes) s)

-- Neither requires what the other produces.
unfoldable pub independent : DataFlowGraph → String → String → Bool
independent g a b =
    not (any (λ r. contains r (types_of b g.nodes.producers)) (types_of a g.nodes.consumers))
    && not (any (λ r. contains r (types_of a g.nodes.producers)) (types_of b g.nodes.consumers))

hints_with : DataFlowGraph → String → List String → List (String × String)
hints_with g a [] = []
hints_with g a (b ∷ bs) =
    let later = hints_with g a bs in if independent g a b then (a, b) ∷ later else later

hints_among : DataFlowGraph → List String → List (String × String)
unfolding hints_with
hints_among g [] = []
hints_among g (a ∷ as') = hints_with g a as' ++ hints_among g as'

unfoldable pub parallelism_hints : DataFlowGraph → List (String × String)
unfolding hints_among
parallelism_hints g = hints_among g (names_in g.nodes.consumers (names_in g.nodes.producers []))

scaffold_for : String → List NodeInfo → Seen → Seen
scaffold_for type [] m = m
scaffold_for type (n ∷ ns) m =
    scaffold_for type ns (insert n.name (get_or [] (lookup n.name m) ++ type ∷ []) m)

scaffold_from : Dict (List NodeInfo) → Seen → Seen
unfolding scaffold_for
scaffold_from [] m = m
scaffold_from ((type, nodes) ∷ rest) m = scaffold_from rest (scaffold_for type nodes m)

unfoldable pub test_scaffold : DataFlowGraph → Seen
unfolding scaffold_from
test_scaffold g = scaffold_from g.nodes.consumers []
