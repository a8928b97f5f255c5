-- ===== src/Builder/Transitions.antt =====
-- Adding transitions (FromBuilder, BranchBuilder and SubFlowBuilder of
-- lang/ts/src/flow-definition.ts).
use tramli.Prelude.{String, ℕ, Option, none, some, [], ◌∷◌, Dict, lookup, insert}
use tramli.Types.{
  StateProcessor, TransitionGuard, BranchProcessor, Transition, auto, external, branch, sub_flow,
}
use tramli.Builder.{Builder, add_transition}

-- The last argument of `external`: left out, a processor, or options.
pub data ExternalOptions : Type 0 where
  nothing : ExternalOptions
  with_processor : StateProcessor → ExternalOptions
  options : Option StateProcessor → Option ℕ → ExternalOptions

pub record BranchBuilder : Type 0 where
  pub from_state : String
  pub branch : BranchProcessor
  pub targets : Dict String
  pub processors : Dict StateProcessor

pub record SubFlowBuilder (D : Type 0) : Type 0 where
  pub from_state : String
  pub sub_flow_def : D
  pub exit_map : Dict String

option_processor : ExternalOptions → Option StateProcessor
option_processor nothing = none
option_processor (with_processor p) = some p
option_processor (options p timeout) = p

option_timeout : ExternalOptions → Option ℕ
option_timeout nothing = none
option_timeout (with_processor p) = none
option_timeout (options p timeout) = timeout

-- `b.from(from).branch(processor)` and what is chained to it.
unfoldable pub branch_from : String → BranchProcessor → BranchBuilder
branch_from from processor = record {
  from_state = from;
  branch = processor;
  targets = [];
  processors = [];
}

unfoldable pub to : String → String → Option StateProcessor → BranchBuilder → BranchBuilder
to state label none bb = record bb { targets = insert label state bb.targets }
to state label (some p) bb = record bb {
  targets = insert label state bb.targets;
  processors = insert label p bb.processors;
}

module _ {D : Type 0} where
  -- `b.from(from).auto(to, processor)`
  unfoldable pub auto_from : String → String → StateProcessor → Builder D → Builder D
  unfolding add_transition
  auto_from from to processor = add_transition (record {
    from = from;
    to = to;
    type = auto;
    processor = some processor;
    guard = none;
    branch = none;
    branch_targets = [];
    branch_label = none;
    sub_flow_definition = none;
    exit_mappings = none;
    timeout = none;
  })

  unfoldable pub external_from :
      String → String → TransitionGuard → ExternalOptions → Builder D → Builder D
  unfolding add_transition option_processor option_timeout
  external_from from to guard opts = add_transition (record {
    from = from;
    to = to;
    type = external;
    processor = option_processor opts;
    guard = some guard;
    branch = none;
    branch_targets = [];
    branch_label = none;
    sub_flow_definition = none;
    exit_mappings = none;
    timeout = option_timeout opts;
  })

  unfoldable pub external_on :
      String → String → String → TransitionGuard → ExternalOptions → Builder D → Builder D
  unfolding external_from
  external_on trigger from to guard =
      external_from from to (record guard { external_trigger = some trigger })

  branch_transition : BranchBuilder → String → String → Transition D
  branch_transition bb label target = record {
    from = bb.from_state;
    to = target;
    type = branch;
    processor = lookup label bb.processors;
    guard = none;
    branch = some bb.branch;
    branch_targets = bb.targets;
    branch_label = some label;
    sub_flow_definition = none;
    exit_mappings = none;
    timeout = none;
  }

  add_branches : BranchBuilder → Dict String → Builder D → Builder D
  unfolding add_transition branch_transition
  add_branches bb [] b = b
  add_branches bb ((label, target) ∷ rest) b =
      add_branches bb rest (add_transition (branch_transition bb label target) b)

  unfoldable pub end_branch : BranchBuilder → Builder D → Builder D
  unfolding add_branches
  end_branch bb b = add_branches bb bb.targets b

  unfoldable pub sub_flow_from : String → D → SubFlowBuilder D
  sub_flow_from from d = record { from_state = from; sub_flow_def = d; exit_map = [] }

  unfoldable pub on_exit : String → String → SubFlowBuilder D → SubFlowBuilder D
  on_exit terminal_name parent_state sb = record sb {
    exit_map = insert terminal_name parent_state sb.exit_map;
  }

  unfoldable pub end_sub_flow : SubFlowBuilder D → Builder D → Builder D
  unfolding add_transition
  end_sub_flow sb = add_transition (record {
    from = sb.from_state;
    to = sb.from_state;
    type = sub_flow;
    processor = none;
    guard = none;
    branch = none;
    branch_targets = [];
    branch_label = none;
    sub_flow_definition = some sb.sub_flow_def;
    exit_mappings = some sb.exit_map;
    timeout = none;
  })
