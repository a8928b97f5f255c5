-- ===== src/FlowDefinition.antt =====
-- A built definition and its queries (the class FlowDefinition of lang/ts/src/flow-definition.ts).
pub mod Edges
use tramli.Prelude.{
  String, ◌<>◌, ◌==◌, ℕ, zero, suc, Bool, false, ◌&&◌, if◌then◌else◌, Option, none, some, List, [],
  ◌∷◌, find, filter, Dict, lookup, insert, keys,
}
use tramli.FlowError.{ErrorClass}
use tramli.Types.{Callback, StateConfig, Transition, sub_flow, is_external}

pub record ExceptionRoute : Type 0 where
  pub error_class : ErrorClass
  pub target : String

pub record FlowDefinition (D : Type 0) : Type 0 where
  pub name : String
  pub state_config : Dict StateConfig
  pub ttl : ℕ
  pub max_guard_retries : ℕ
  pub transitions : List (Transition D)
  pub error_transitions : Dict String
  pub initial_state : Option String
  pub terminal_states : List String
  pub strict_mode : Bool
  pub warnings : List String
  pub exception_routes : Dict (List ExceptionRoute)
  pub enter_actions : Dict (Callback (Unit {0}))
  pub exit_actions : Dict (Callback (Unit {0}))

-- The definitions that may stand as sub-flows inside one of nesting depth `n`.
abbrev pub SubDefinition : ℕ → Type 0
SubDefinition zero = ⊥
SubDefinition (suc n) = FlowDefinition (SubDefinition n)

module _ {D : Type 0} where
  unfoldable pub transitions_from : String → FlowDefinition D → List (Transition D)
  transitions_from state d = filter (λ t. t.from == state) d.transitions

  unfoldable pub external_from : String → FlowDefinition D → Option (Transition D)
  external_from state d = find (λ t. t.from == state && is_external t.type) d.transitions

  unfoldable pub externals_from : String → FlowDefinition D → List (Transition D)
  externals_from state d = filter (λ t. t.from == state && is_external t.type) d.transitions

  unfoldable pub all_states : FlowDefinition D → List String
  all_states d = keys d.state_config

  unfoldable pub enter_action : String → FlowDefinition D → Option (Callback (Unit {0}))
  enter_action state d = lookup state d.enter_actions

  unfoldable pub exit_action : String → FlowDefinition D → Option (Callback (Unit {0}))
  exit_action state d = lookup state d.exit_actions

-- Every terminal state of the plugin leads on to the state that the transition led to.
unfoldable pub exits_to : String → List String → Dict String → Dict String
exits_to to [] m = m
exits_to to (terminal ∷ rest) m = exits_to to rest (insert terminal to m)

module _ {D : Type 0} (from to : String) (plugin : FlowDefinition D) where
  plugin_transition : Transition (FlowDefinition D) → Transition (FlowDefinition D)
  plugin_transition t = record {
    from = from;
    to = from;
    type = sub_flow;
    processor = t.processor;
    guard = none;
    branch = none;
    branch_targets = [];
    branch_label = none;
    sub_flow_definition = some plugin;
    exit_mappings = some (exits_to to plugin.terminal_states []);
    timeout = none;
  }

  -- The first transition from `from` to `to` is replaced, and the rest is kept.
  replace_first : List (Transition (FlowDefinition D)) → List (Transition (FlowDefinition D))
  unfolding plugin_transition
  replace_first [] = []
  replace_first (t ∷ ts) =
      if t.from == from && t.to == to then plugin_transition t ∷ ts else t ∷ replace_first ts

  unfoldable pub with_plugin : FlowDefinition (FlowDefinition D) → FlowDefinition (FlowDefinition D)
  unfolding replace_first
  with_plugin d = record d {
    name = d.name <> "+plugin:" <> plugin.name;
    transitions = replace_first d.transitions;
    strict_mode = false;
  }
