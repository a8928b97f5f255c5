-- ===== src/Builder.antt =====
-- Building a definition (the classes Builder, FromBuilder, BranchBuilder and SubFlowBuilder of
-- lang/ts/src/flow-definition.ts). A method that returns `this` returns the changed builder.
pub mod Transitions
pub mod Definition
pub mod Search
pub mod Checks
pub mod Distinct
pub mod Terminal
pub mod Dag
pub mod Reachability
pub mod Requires
pub mod Outgoing
pub mod Nesting
pub mod Validation
use tramli.Prelude.{
  String, ℕ, ◌*◌, Bool, true, false, if◌then◌else◌, Option, none, some, List, [], ◌∷◌, ◌++◌, any,
  get_or, Dict, lookup, insert, add, length, nat_eq, is_some, ◌&&◌, ◌<>◌,
}
use tramli.FlowError.{ErrorClass}
use tramli.Types.{
  Callback, StateConfig, StateProcessor, TransitionGuard, BranchProcessor, Transition, auto,
  external, branch, sub_flow, is_external,
}
use tramli.FlowDefinition.{ExceptionRoute, FlowDefinition}

pub record Builder (D : Type 0) : Type 0 where
  pub name : String
  pub state_config : Dict StateConfig
  pub ttl : ℕ
  pub max_guard_retries : ℕ
  pub transitions : List (Transition D)
  pub error_transitions : Dict String
  pub exception_routes : Dict (List ExceptionRoute)
  pub enter_actions : Dict (Callback (Unit {0}))
  pub exit_actions : Dict (Callback (Unit {0}))
  pub initially_available_keys : List String
  pub externally_provided_keys : List String
  pub perpetual : Bool
  pub strict_mode : Bool
  pub allow_unreachable : Bool

any_error_from : String → Dict StateConfig → Dict String → Dict String
any_error_from error_state [] m = m
any_error_from error_state ((s, cfg) ∷ rest) m =
    any_error_from error_state rest (if cfg.terminal then m else insert s error_state m)

module _ {D : Type 0} where
  unfoldable pub builder : String → Dict StateConfig → Builder D
  builder name state_config = record {
    name = name;
    state_config = state_config;
    ttl = 5 * 60 * 1000;
    max_guard_retries = 3;
    transitions = [];
    error_transitions = [];
    exception_routes = [];
    enter_actions = [];
    exit_actions = [];
    initially_available_keys = [];
    externally_provided_keys = [];
    perpetual = false;
    strict_mode = false;
    allow_unreachable = false;
  }

  unfoldable pub initially_available : List String → Builder D → Builder D
  initially_available ks b = record b {
    initially_available_keys = b.initially_available_keys ++ ks;
  }

  unfoldable pub externally_provided : List String → Builder D → Builder D
  externally_provided ks b = record b {
    externally_provided_keys = b.externally_provided_keys ++ ks;
  }

  unfoldable pub set_ttl : ℕ → Builder D → Builder D
  set_ttl ms b = record b { ttl = ms }

  unfoldable pub set_max_guard_retries : ℕ → Builder D → Builder D
  set_max_guard_retries n b = record b { max_guard_retries = n }

  unfoldable pub on_error : String → String → Builder D → Builder D
  on_error from to b = record b { error_transitions = insert from to b.error_transitions }

  unfoldable pub on_step_error : String → ErrorClass → String → Builder D → Builder D
  on_step_error from error_class to b = record b {
    exception_routes =
        insert from
          (get_or [] (lookup from b.exception_routes)
            ++ (record { error_class = error_class; target = to }) ∷ [])
          b.exception_routes;
  }

  unfoldable pub on_any_error : String → Builder D → Builder D
  unfolding any_error_from
  on_any_error error_state b = record b {
    error_transitions = any_error_from error_state b.state_config b.error_transitions;
  }

  unfoldable pub on_state_enter : String → Callback (Unit {0}) → Builder D → Builder D
  on_state_enter state action b = record b { enter_actions = insert state action b.enter_actions }

  unfoldable pub on_state_exit : String → Callback (Unit {0}) → Builder D → Builder D
  on_state_exit state action b = record b { exit_actions = insert state action b.exit_actions }

  unfoldable pub allow_perpetual : Builder D → Builder D
  allow_perpetual b = record b { perpetual = true }

  unfoldable pub allow_unreachable : Builder D → Builder D
  allow_unreachable b = record b { allow_unreachable = true }

  unfoldable pub strict_mode : Builder D → Builder D
  strict_mode b = record b { strict_mode = true }

  unfoldable pub add_transition : Transition D → Builder D → Builder D
  add_transition t b = record b { transitions = b.transitions ++ t ∷ [] }
