-- ===== src/Tests/OpenBuilder.antt =====
-- The definitions that a run of building computes with.
use tramli.Prelude.{
  truthy, lookup, insert, insert_all, keys, values, contains, add, add_all, delete, decimal, join,
  sort,
}
use tramli.Types.{is_auto, is_external, is_branch, is_sub_flow}
use tramli.FlowDefinition.{
  transitions_from, external_from, externals_from, all_states, enter_action, exit_action, exits_to,
  with_plugin,
}
use tramli.FlowError.{
  plain_error, type_error, flow_error, with_error_type, with_context_snapshot, invalid_transition,
  missing_context, dag_cycle, max_chain_depth_error, instance_of, as_error,
}
use tramli.Context.{has_key}
use tramli.Availability.{enter_state, take_legs, walk, budget}
use tramli.DataFlowGraph as Graph
use tramli.DataFlowGraph.{
  add_to, consume_all, produce_all, collect, guard_produces, processor_produces, available_through,
  leg_of, met_states, produced_in, known_keys, mark_initial, traverse,
}
use tramli.DataFlowGraph.Queries.{
  available_at, producers_of, consumers_of, delete_all, dead_data, all_types, lifetime,
  is_compatible, assert_data_flow, explain, impact_of,
}
use tramli.Builder.Checks.{
  check_branch_completeness, check_auto_external_conflict, check_sub_flow_exit_completeness,
}
use tramli.Builder.Dag.{
  visit_all, has_cycle, search_states, auto_targets, auto_states, cycle_search, check_dag,
}
use tramli.Builder.Definition.{build_internal, finalize}
use tramli.Builder.Distinct.{
  duplicate_errors, identical_requires, triggers_in, distinct_errors_at, distinct_errors,
  check_external_requires_distinct,
}
use tramli.Builder.Nesting.{
  over_sub_flows, check_sub_flow_nesting_depth, check_sub_flow_circular_ref,
}
use tramli.Builder.Outgoing.{reported, and_check, check_terminal_no_outgoing}
use tramli.Builder.Reachability.{
  targets_of, error_target_of, unreachable_errors, next_states, visited_from, check_reachability,
}
use tramli.Builder.Requires.{
  require_errors, at_event, past_guard, legs_of, visited_states, requires_walk,
  check_requires_produces,
}
use tramli.Builder.Search.{mark_all, search}
use tramli.Builder.Terminal.{
  try_all, can_reach_terminal, terminal_of, tried_states, possible_states, terminal_walk,
  check_path_to_terminal,
}
use tramli.Builder.Validation.{all_checks, collect_errors, graph_of, build, build_and_validate}

unfoldable pub open_builder : Unit {0}
unfolding truthy lookup insert insert_all keys values contains add add_all delete decimal join sort
    is_auto is_external is_branch is_sub_flow transitions_from external_from externals_from
    all_states enter_action exit_action exits_to with_plugin plain_error type_error flow_error
    with_error_type with_context_snapshot invalid_transition missing_context dag_cycle
    max_chain_depth_error instance_of as_error has_key enter_state take_legs walk budget Graph.build
    add_to consume_all produce_all collect guard_produces processor_produces available_through
    leg_of met_states produced_in known_keys mark_initial traverse available_at producers_of
    consumers_of delete_all dead_data all_types lifetime is_compatible assert_data_flow explain
    impact_of check_branch_completeness check_auto_external_conflict
    check_sub_flow_exit_completeness visit_all has_cycle search_states auto_targets auto_states
    cycle_search check_dag build_internal finalize duplicate_errors identical_requires triggers_in
    distinct_errors_at distinct_errors check_external_requires_distinct over_sub_flows
    check_sub_flow_nesting_depth check_sub_flow_circular_ref reported and_check
    check_terminal_no_outgoing targets_of error_target_of unreachable_errors next_states
    visited_from check_reachability require_errors at_event past_guard legs_of visited_states
    requires_walk check_requires_produces mark_all search try_all can_reach_terminal terminal_of
    tried_states possible_states terminal_walk check_path_to_terminal all_checks collect_errors
    graph_of build build_and_validate
open_builder = tt
