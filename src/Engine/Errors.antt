-- ===== src/Engine/Errors.antt =====
-- The routing of errors (`handleError` of lang/ts/src/flow-engine.ts).
pub mod Follows
pub mod Quiet
pub mod Outcomes
use tramli.Prelude.{
  String, ◌<>◌, Bool, true, false, Option, none, some, truthy, List, [], find, lookup, keys,
}
use tramli.FlowError.{Error, flow_error_class, instance_of, with_context_snapshot}
use tramli.Context.{snapshot}
use tramli.FlowDefinition.{ExceptionRoute, FlowDefinition}
use tramli.FlowInstance.{FlowInstance, set_last_error, complete}
use tramli.Exec.{pure, gets, when, ◌>>=◌, ◌>>◌}
use tramli.Engine.{LogEntry, Engine, Act, update_flow, log_entry}
use tramli.Engine.Steps.{current_state, move_to, record_step, log_transition}

-- `definition.stateConfig[s]?.terminal`
unfoldable pub is_terminal : {D : Type 0} → String → FlowDefinition D → Bool
is_terminal s d = elim (lookup s d.state_config) [ none ↦ false | some cfg ↦ cfg.terminal ]

-- The first route whose class the error is an instance of.
route_in : Error → Option (List ExceptionRoute) → Option ExceptionRoute
route_in cause none = none
route_in cause (some routes) = find (λ route. instance_of cause route.error_class) routes

unfoldable pub exception_route :
    {D : Type 0} → String → Option Error → FlowDefinition D → Option ExceptionRoute
unfolding route_in
exception_route from none d = none
exception_route from (some cause) d = route_in cause (lookup from d.exception_routes)

class_name : Option Error → String
class_name none = ""
class_name (some cause) = cause.class.name

module _ (e : Engine) {D F : Type 0} where
  note_cause : Option Error → Act (FlowInstance D F) (Option Error)
  note_cause none = pure none
  note_cause (some cause) = do
    update_flow (set_last_error (some (cause.class.name <> ": " <> cause.message)))
    available ← gets (λ r. keys (snapshot r.env.context))
    pure (
        some (elim (instance_of cause flow_error_class) [
          | true ↦ with_context_snapshot available [] cause
          | false ↦ cause
        ]))

  log_error :
      Option String → Option String → String → Option Error → Act (FlowInstance D F) (Unit {0})
  log_error from to trigger cause r =
      log_entry e.error_logger
        (LogEntry.error r.flow.id r.flow.definition.name from to trigger cause) r

  -- A move with no entry and exit actions, which completes the flow in a terminal state.
  unfoldable pub divert : String → String → Act (FlowInstance D F) (Unit {0})
  divert target trigger = do
    from ← current_state
    move_to target
    record_step from target trigger
    log_transition e from target trigger
    terminal ← gets (λ r. is_terminal target r.flow.definition)
    when terminal (update_flow (complete target))

  -- Without an exception route: the state's error transition, else the flow ends.
  fall_back : Option String → Act (FlowInstance D F) (Unit {0})
  unfolding divert
  fall_back none = update_flow (complete "TERMINAL_ERROR")
  fall_back (some target) = divert target "error"

  route_error : String → Option Error → Act (FlowInstance D F) (Unit {0})
  unfolding fall_back class_name
  route_error from cause r = elim (exception_route from cause r.flow.definition) [
    | some route ↦ divert route.target ("error:" <> class_name cause) r
    | none ↦ fall_back (truthy (lookup from r.flow.definition.error_transitions)) r
  ]

  unfoldable pub handle_error : String → Option Error → Act (FlowInstance D F) (Unit {0})
  unfolding note_cause log_error route_error
  handle_error from cause = do
    noted ← note_cause cause
    log_error (some from) none "error" noted
    route_error from noted
