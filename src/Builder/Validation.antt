-- ===== src/Builder/Validation.antt =====
-- All checks of a definition, and building it (`collectErrors`, `validate`, `build` and
-- `buildAndValidate` of lang/ts/src/flow-definition.ts). Errors are given by their messages, without
-- the fields that `parseValidationError` reads off them. `none`: a walk did not end within its fuel.
pub mod Accepted
pub mod Returns
use tramli.Prelude.{
  String, ◌<>◌, ℕ, suc, Bool, true, false, if◌then◌else◌, Option, none, some, List, [], ◌∷◌, ◌++◌,
  length, decimal, join, map, truthy,
}
use tramli.FlowError.{Error, flow_error}
use tramli.FlowDefinition.{FlowDefinition, SubDefinition}
use tramli.Builder.{Builder}
use tramli.Builder.Definition.{build_internal, finalize}
use tramli.Builder.Checks.{
  check_branch_completeness, check_auto_external_conflict, check_sub_flow_exit_completeness,
}
use tramli.Builder.Distinct.{check_external_requires_distinct}
use tramli.Builder.Reachability.{check_reachability}
use tramli.Builder.Terminal.{Checked, reports, throws, check_path_to_terminal}
use tramli.Builder.Dag.{check_dag}
use tramli.Builder.Requires.{check_requires_produces}
use tramli.Builder.Outgoing.{reported, and_check, check_terminal_no_outgoing}
use tramli.Builder.Nesting.{check_sub_flow_nesting_depth, check_sub_flow_circular_ref}
use tramli.DataFlowGraph as Graph
use tramli.DataFlowGraph.{DataFlowGraph}

initial_errors : Option String → List String
initial_errors none = "No initial state found (exactly one state must have initial=true)" ∷ []
initial_errors (some root) = []

-- `errors.map(e => e.message)` as a text.
invalid_flow : String → List String → Error
invalid_flow name errors = flow_error "INVALID_FLOW_DEFINITION" (
    "Flow '"
    <> name
    <> "' has "
    <> decimal (length errors)
    <> " validation error(s):\n  - "
    <> join "\n  - " errors)

module _ (n : ℕ) where
  -- The definition, with sub-flows of nesting depth up to `n`, and the checks in their order.
  unfoldable pub all_checks :
      Builder (SubDefinition (suc n))
      → FlowDefinition (SubDefinition (suc n))
      → List String
      → Checked
  unfolding initial_errors
  all_checks b d required = reported (initial_errors (truthy d.initial_state)) (
      reported (if b.allow_unreachable then [] else check_reachability d) (
        and_check (if b.perpetual then reports [] else check_path_to_terminal d) (
          reported (check_dag d) (
            reported (check_external_requires_distinct d) (
              reported (check_branch_completeness d) (
                reported required (
                  reported (check_auto_external_conflict d) (
                    and_check (check_terminal_no_outgoing d) (
                      reported (check_sub_flow_exit_completeness d) (
                        reported (check_sub_flow_nesting_depth (suc n) d 0)
                          (reports (check_sub_flow_circular_ref (suc n) d []))))))))))))

  checks_with :
      Builder (SubDefinition (suc n))
      → FlowDefinition (SubDefinition (suc n))
      → Option (List String)
      → Option Checked
  checks_with b d none = none
  checks_with b d (some required) = some (all_checks b d required)

  unfoldable pub collect_errors :
      Builder (SubDefinition (suc n)) → FlowDefinition (SubDefinition (suc n)) → Option Checked
  unfolding checks_with
  collect_errors b d =
      checks_with b d
        (check_requires_produces d b.initially_available_keys b.externally_provided_keys)

  -- The graph of a definition of this builder.
  unfoldable pub graph_of :
      Builder (SubDefinition (suc n))
      → FlowDefinition (SubDefinition (suc n))
      → Option DataFlowGraph
  graph_of b d = Graph.build d b.initially_available_keys b.externally_provided_keys

-- `build` either gives a definition with its graph, or throws.
pub data Built (n : ℕ) : Type 0 where
  built : FlowDefinition (SubDefinition (suc n)) → DataFlowGraph → Built n
  refused : Error → Built n

-- What `buildAndValidate` returns.
pub record BuildReport (n : ℕ) : Type 0 where
  pub definition : Option (FlowDefinition (SubDefinition (suc n)))
  pub errors : List String
  pub diagnostic_graph : Option DataFlowGraph

module _ (n : ℕ) where
  built_with :
      Builder (SubDefinition (suc n))
      → FlowDefinition (SubDefinition (suc n))
      → Option DataFlowGraph
      → Option (Built n)
  built_with b d none = none
  built_with b d (some g) = some (built (finalize b d) g)

  build_checked :
      Builder (SubDefinition (suc n))
      → FlowDefinition (SubDefinition (suc n))
      → Option Checked
      → Option (Built n)
  unfolding built_with invalid_flow
  build_checked b d none = none
  build_checked b d (some (throws e)) = some (refused e)
  build_checked b d (some (reports [])) = built_with b d (graph_of n b d)
  build_checked b d (some (reports (e ∷ errors))) =
      some (refused (invalid_flow b.name (e ∷ errors)))

  unfoldable pub build : Builder (SubDefinition (suc n)) → Option (Built n)
  unfolding build_checked
  build b = build_checked b (build_internal b) (collect_errors n b (build_internal b))

  report_with :
      Builder (SubDefinition (suc n))
      → FlowDefinition (SubDefinition (suc n))
      → List String
      → Option DataFlowGraph
      → Option (BuildReport n)
  report_with b d errors none = none
  report_with b d [] (some g) =
      some (record { definition = some (finalize b d); errors = []; diagnostic_graph = some g })
  report_with b d (e ∷ errors) (some g) =
      some (record { definition = none; errors = e ∷ errors; diagnostic_graph = some g })

  report_checked :
      Builder (SubDefinition (suc n))
      → FlowDefinition (SubDefinition (suc n))
      → Option Checked
      → Option (BuildReport n)
  unfolding report_with
  report_checked b d none = none
  report_checked b d (some (throws e)) =
      some (record { definition = none; errors = e.message ∷ []; diagnostic_graph = none })
  report_checked b d (some (reports errors)) = report_with b d errors (graph_of n b d)

  unfoldable pub build_and_validate : Builder (SubDefinition (suc n)) → Option (BuildReport n)
  unfolding report_checked
  build_and_validate b = report_checked b (build_internal b) (collect_errors n b (build_internal b))
