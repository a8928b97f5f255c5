-- ===== src/Tests/Open.antt =====
-- One name whose unfolding opens the whole engine, for the runs below.
use tramli.Prelude.{lookup, insert, insert_all, contains, keys, truthy}
use tramli.FlowError.{
  flow_error, type_error, plain_error, as_error, instance_of, with_context_snapshot,
  max_chain_depth_error, invalid_transition,
}
use tramli.Context.{new, put, put_all, has_key, snapshot, restore_from, same_value}
use tramli.Types.{is_auto, is_external, is_branch, is_sub_flow}
use tramli.FlowDefinition.{transitions_from, externals_from, enter_action, exit_action}
use tramli.FlowInstance
use tramli.FlowInstance.{
  transition_to, complete, is_completed, increment_guard_failure, set_last_error,
  set_active_sub_flow,
}
use tramli.FlowStore.{record_transition, create, save, load_for_update}
use tramli.Exec.{pure, raise, gets, modify, catch, ◌>>=◌}
use tramli.Engine.{now, update_context, update_flow, log_entry, call}
use tramli.Engine.Select.{
  select_external, is_explicit, trigger_of, trigger_given, requires_given, specificity,
}
use tramli.Engine.Steps.{
  fire_enter, fire_exit, current_state, move_to, record_step, log_transition, check_produces,
  verify_produces, run_processor, advance,
}
use tramli.Engine.Errors.{is_terminal, exception_route, divert, handle_error}
use tramli.Engine.Chain.{
  sub_flow_in, auto_or_branch_in, specific_branch, demand, inside, chain_step, try_step,
  chain_round, auto_loop, sub_flow_trigger, execute_sub_flow, execute_auto_chain,
}
use tramli.Engine.External.{
  data_keys, put_data, or_refuse, log_guard, pass_guard, on_output, resume_state,
}
use tramli.Engine.SubResume.{resume_sub_flow}
use tramli.Engine.Resume.{resume_loaded}
use tramli.Engine.Api.{enter, settle, settle_outcome, start_flow, resume_and_execute}

unfoldable pub open_engine : Unit {0}
unfolding lookup insert insert_all contains keys truthy flow_error type_error plain_error as_error
    instance_of with_context_snapshot max_chain_depth_error invalid_transition new put put_all
    has_key snapshot restore_from same_value is_auto is_external is_branch is_sub_flow
    transitions_from externals_from enter_action exit_action FlowInstance.new transition_to complete
    is_completed increment_guard_failure set_last_error set_active_sub_flow record_transition create
    save load_for_update pure raise gets modify catch ◌>>=◌ now update_context update_flow log_entry
    call select_external is_explicit trigger_of trigger_given requires_given specificity fire_enter
    fire_exit current_state move_to record_step log_transition check_produces verify_produces
    run_processor advance is_terminal exception_route divert handle_error sub_flow_in
    auto_or_branch_in specific_branch demand inside chain_step try_step chain_round auto_loop
    sub_flow_trigger execute_sub_flow execute_auto_chain data_keys put_data or_refuse log_guard
    pass_guard on_output resume_state resume_sub_flow resume_loaded enter settle settle_outcome
    start_flow resume_and_execute
open_engine = tt
