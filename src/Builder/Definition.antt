-- ===== src/Builder/Definition.antt =====
-- The definition that a builder gives (`buildInternal` and `finalize` of
-- lang/ts/src/flow-definition.ts), without its data-flow graph.
use tramli.Prelude.{
  String, false, if◌then◌else◌, Option, none, some, List, [], ◌∷◌, any, Dict, add, length, nat_eq,
  ◌&&◌, ◌<>◌,
}
use tramli.Types.{StateConfig, is_external}
use tramli.FlowDefinition.{FlowDefinition}
use tramli.Builder.{Builder}

-- The last state that is marked initial.
initial_of : Dict StateConfig → Option String → Option String
initial_of [] found = found
initial_of ((s, cfg) ∷ rest) found = initial_of rest (if cfg.initial then some s else found)

terminals_of : Dict StateConfig → List String → List String
terminals_of [] found = found
terminals_of ((s, cfg) ∷ rest) found =
    terminals_of rest (if cfg.terminal then add s found else found)

module _ {D : Type 0} where
  -- Before `finalize` the remaining fields have no value, and the checks do not read them.
  unfoldable pub build_internal : Builder D → FlowDefinition D
  unfolding initial_of terminals_of
  build_internal b = record {
    name = b.name;
    state_config = b.state_config;
    ttl = b.ttl;
    max_guard_retries = b.max_guard_retries;
    transitions = b.transitions;
    error_transitions = b.error_transitions;
    initial_state = initial_of b.state_config none;
    terminal_states = terminals_of b.state_config [];
    strict_mode = false;
    warnings = [];
    exception_routes = [];
    enter_actions = [];
    exit_actions = [];
  }

  unfoldable pub finalize : Builder D → FlowDefinition D → FlowDefinition D
  finalize b d = record d {
    warnings =
        if nat_eq (length d.terminal_states) 0 && any (λ t. is_external t.type) b.transitions
        then ("Perpetual flow '" <> b.name
            <> "' has External transitions — ensure events are always delivered to avoid deadlock (liveness risk)")
          ∷ []
        else [];
    strict_mode = b.strict_mode;
    exception_routes = b.exception_routes;
    enter_actions = b.enter_actions;
    exit_actions = b.exit_actions;
  }
