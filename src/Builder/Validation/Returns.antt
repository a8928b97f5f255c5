-- ===== src/Builder/Validation/Returns.antt =====
-- That `build` and `buildAndValidate` end, and agree.
use tramli.Prelude.{String, ◌≡◌, refl, ◌⊎◌, inl, inr, ℕ, suc, Option, none, some, List, [], ◌∷◌}
use tramli.FlowError.{Error}
use tramli.FlowDefinition.{FlowDefinition, SubDefinition}
use tramli.DataFlowGraph.{DataFlowGraph}
use tramli.DataFlowGraph.Build as Graph
use tramli.Builder.{Builder}
use tramli.Builder.Definition.{build_internal, finalize}
use tramli.Builder.Terminal.{Checked, reports, throws}
use tramli.Builder.Requires.Legs.{check_requires_produces-returns}
use tramli.Builder.Validation.{
  invalid_flow, all_checks, checks_with, collect_errors, graph_of, Built, built, refused,
  built_with, build_checked, build, BuildReport, report_with, report_checked, build_and_validate,
}

module _ (n : ℕ) (b : Builder (SubDefinition (suc n))) where
  collect_errors-returns :
      (d : FlowDefinition (SubDefinition (suc n))) → (c : Checked) × (collect_errors n b d ≡ some c)
  unfolding collect_errors checks_with
  collect_errors-returns d =
      let (required, e) =
        check_requires_produces-returns d b.initially_available_keys b.externally_provided_keys in
      (all_checks n b d required, rw e refl)

  graph_of-returns :
      (d : FlowDefinition (SubDefinition (suc n))) → (g : DataFlowGraph) × (graph_of n b d ≡ some g)
  unfolding graph_of
  graph_of-returns d = Graph.build-returns d b.initially_available_keys b.externally_provided_keys

  -- Both give the definition and its graph, or both do not: one throws, the other reports errors.
  abbrev pub Agree : Option (Built n) → Option (BuildReport n) → Type 0
  Agree o p =
      ((d : FlowDefinition (SubDefinition (suc n))) × (g : DataFlowGraph) × (o ≡ some (built d g))
        × (p ≡ some (record { definition = some d; errors = []; diagnostic_graph = some g })))
      ⊎ ((e : Error) × (x : String) × (xs : List String) × (graph : Option DataFlowGraph) × (o
            ≡ some (refused e))
          × (p ≡ some (record { definition = none; errors = x ∷ xs; diagnostic_graph = graph })))

  checked-Agree :
      (d : FlowDefinition (SubDefinition (suc n))) (c : Checked)
      → Agree (build_checked n b d (some c)) (report_checked n b d (some c))
  unfolding build_checked built_with report_checked report_with
  checked-Agree d (throws e) = inr (e, e.message, [], none, refl, refl)
  checked-Agree d (reports []) =
      let (g, e) = graph_of-returns d in inl (finalize b d, g, rw e refl, rw e refl)
  checked-Agree d (reports (x ∷ xs)) =
      let (g, e) = graph_of-returns d in
      inr (invalid_flow b.name (x ∷ xs), x, xs, some g, refl, rw e refl)

-- Building ends, and so does building with a report: either both give the same definition with the
-- same graph, or the one throws and the other reports an error and no definition.
pub build-Agrees :
    (n : ℕ) (b : Builder (SubDefinition (suc n))) → Agree n b (build n b) (build_and_validate n b)
unfolding build build_and_validate
build-Agrees n b =
    let (c, e) = collect_errors-returns n b (build_internal b) in
    rw e (checked-Agree n b (build_internal b) c)
