-- ===== src/Tests/DataFlowExamples.antt =====
-- Instances of the theorems on the graph of data.
use tramli.Prelude.{◌↔◌, truthy, Member, ◌≡◌, refl, true, some, [], ◌∷◌, lookup, contains, is_some}
use tramli.DataFlowGraph.{DataFlowGraph, build}
use tramli.DataFlowGraph.Build.{build-returns}
use tramli.DataFlowGraph.Queries.{dead_data, producers_of, consumers_of}
use tramli.DataFlowGraph.Dead.{build-dead_data}
use tramli.DataFlowGraph.Queries.{assert_data_flow}
use tramli.DataFlowGraph.Versions.{version_compatibility, incompatible_from, new_types}
use tramli.DataFlowGraph.Versions.Resume.{version_compatibility-resumes}
use tramli.DataFlowGraph.Queries.{available_at}
use tramli.Context.{has_key}
use tramli.Samples.{order, data_of, address}

build-returns_example :
    (g : DataFlowGraph) × (build order ("address" ∷ []) ("payment" ∷ []) ≡ some g)
build-returns_example = build-returns order ("address" ∷ []) ("payment" ∷ [])

abbrev shipped_graph : DataFlowGraph
shipped_graph = build-returns_example.0

-- Two versions of a graph: the second needs less where the order is paid.
abbrev graph : DataFlowGraph
graph = record {
  available_at_state = ("created", "address" ∷ []) ∷ ("paid", "address" ∷ "payment" ∷ []) ∷ [];
  nodes = record { producers = []; consumers = []; all_produced = []; all_consumed = [] };
}

abbrev next_graph : DataFlowGraph
next_graph = record graph {
  available_at_state = ("created", "address" ∷ []) ∷ ("paid", "address" ∷ []) ∷ [];
}

version_compatibility-resumes_example : assert_data_flow (data_of address) "created" next_graph ≡ []
unfolding version_compatibility incompatible_from new_types lookup contains assert_data_flow
    available_at has_key
version_compatibility-resumes_example =
    version_compatibility-resumes graph next_graph (data_of address) "created" accepted known whole
  where
    accepted : version_compatibility graph next_graph ≡ []
    accepted = refl

    known : is_some (lookup "created" graph.available_at_state) ≡ true
    known = refl

    whole : assert_data_flow (data_of address) "created" graph ≡ []
    whole = refl

build-dead_data_example :
    Member "label" (dead_data shipped_graph)
    ↔ (¬ producers_of "label" shipped_graph ≡ [] × (consumers_of "label" shipped_graph ≡ []))
unfolding truthy
build-dead_data_example =
    build-dead_data order ("address" ∷ []) ("payment" ∷ []) "created" shipped_graph "label" refl
      build-returns_example.1
