-- ===== src/DataFlowGraph/Versions.antt =====
-- Comparing graphs (`crossFlowMap`, `diff` and `versionCompatibility` of
-- lang/ts/src/data-flow-graph.ts).
pub mod Resume
use tramli.Prelude.{
  String, ◌<>◌, ℕ, ◌+◌, nat_eq, Bool, true, false, not, if◌then◌else◌, get_or, List, [], ◌∷◌, ◌++◌,
  filter, contains, add, decimal, Dict, lookup,
}
use tramli.Availability.{Seen}
use tramli.DataFlowGraph.{NodeInfo, DataFlowGraph}
use tramli.DataFlowGraph.Queries.{all_types}

cross_types : ℕ → ℕ → List String → List String → List String
cross_types i j consumed [] = []
cross_types i j consumed (p ∷ produced) =
    let later = cross_types i j consumed produced in
    if contains p consumed
    then (p <> ": flow " <> decimal i <> " produces → flow " <> decimal j <> " consumes") ∷ later
    else later

-- The flow `i` against the flows from `j` on.
cross_with : ℕ → DataFlowGraph → ℕ → List DataFlowGraph → List String
unfolding cross_types
cross_with i g j [] = []
cross_with i g j (h ∷ rest) =
    (if nat_eq i j then [] else cross_types i j h.nodes.all_consumed g.nodes.all_produced)
    ++ cross_with i g (j + 1) rest

cross_from : ℕ → List DataFlowGraph → List DataFlowGraph → List String
unfolding cross_with
cross_from i [] all_graphs = []
cross_from i (g ∷ rest) all_graphs =
    cross_with i g 0 all_graphs ++ cross_from (i + 1) rest all_graphs

unfoldable pub cross_flow_map : List DataFlowGraph → List String
unfolding cross_from
cross_flow_map graphs = cross_from 0 graphs graphs

produced_edges : String → List NodeInfo → List String → List String
produced_edges t [] s = s
produced_edges t (n ∷ ns) s = produced_edges t ns (add (n.name <> " --produces--> " <> t) s)

required_edges : String → List NodeInfo → List String → List String
required_edges t [] s = s
required_edges t (n ∷ ns) s = required_edges t ns (add (t <> " --requires--> " <> n.name) s)

edges_from :
    (String → List NodeInfo → List String → List String)
    → Dict (List NodeInfo)
    → List String
    → List String
edges_from edges [] s = s
edges_from edges ((t, ns) ∷ rest) s = edges_from edges rest (edges t ns s)

unfoldable pub collect_edges : DataFlowGraph → List String
unfolding produced_edges required_edges edges_from
collect_edges g =
    edges_from required_edges g.nodes.consumers (edges_from produced_edges g.nodes.producers [])

pub record GraphDiff : Type 0 where
  pub added_types : List String
  pub removed_types : List String
  pub added_edges : List String
  pub removed_edges : List String

unfoldable pub without : List String → List String → List String
without old new = filter (λ t. not (contains t old)) new

unfoldable pub diff : DataFlowGraph → DataFlowGraph → GraphDiff
unfolding without
diff before after = record {
  added_types = without (all_types before) (all_types after);
  removed_types = without (all_types after) (all_types before);
  added_edges = without (collect_edges before) (collect_edges after);
  removed_edges = without (collect_edges after) (collect_edges before);
}

unfoldable pub new_types : String → List String → List String → List String
new_types state before [] = []
new_types state before (t ∷ after) =
    let later = new_types state before after in
    if contains t before
    then later
    else ("State " <> state <> ": v2 expects " <> t <> " but v1 instances may not have it") ∷ later

unfoldable pub incompatible_from : Seen → Seen → List String
unfolding new_types
incompatible_from after [] = []
incompatible_from after ((state, available) ∷ rest) =
    new_types state available (get_or [] (lookup state after)) ++ incompatible_from after rest

unfoldable pub version_compatibility : DataFlowGraph → DataFlowGraph → List String
unfolding incompatible_from
version_compatibility before after =
    incompatible_from after.available_at_state before.available_at_state
