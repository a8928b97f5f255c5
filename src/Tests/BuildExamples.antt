-- ===== src/Tests/BuildExamples.antt =====
-- Building small definitions, and instances of the theorems on building.
use tramli.Prelude.{
  String, ◌≤◌, Option, List, ◌++◌, here, ◌≡◌, refl, ◌↔◌, true, false, some, none, [], ◌∷◌, length,
}
use tramli.Types.{Transition, StateProcessor, auto, sub_flow}
use tramli.FlowDefinition.{FlowDefinition, SubDefinition}
use tramli.DataFlowGraph.{DataFlowGraph}
use tramli.Builder.{Builder}
use tramli.Builder.Definition.{build_internal, finalize}
use tramli.Builder.Validation.{built, build, build_and_validate}
use tramli.Builder.Validation.Accepted.{Sound, build-Sound}
use tramli.Builder.Validation.Returns.{Agree, build-Agrees}
use tramli.Builder.Requires.{check_requires_produces}
use tramli.Tests.OpenBuilder.{open_builder}
use tramli.Builder.Nesting.{check_sub_flow_nesting_depth, check_sub_flow_circular_ref}
use tramli.Builder.Nesting.Chains.{
  Chain, Unrepeated, check_sub_flow_nesting_depth_lem, check_sub_flow_circular_ref_lem,
}
use tramli.Builder.Requires.Ways.{Followed, Met}
use tramli.Builder.Requires.Provided.{check_requires_produces-Met}
use tramli.Builder.Terminal.{throws, check_path_to_terminal}
use tramli.FlowError.{type_error}
use tramli.Samples.{state, ship, order}

abbrev ship_step : Transition (FlowDefinition ⊥)
ship_step = record {
  from = "paid";
  to = "shipped";
  type = auto;
  processor = some ship;
  guard = none;
  branch = none;
  branch_targets = [];
  branch_label = none;
  sub_flow_definition = none;
  exit_mappings = none;
  timeout = none;
}

abbrev shipping : Builder (SubDefinition 1)
shipping = record {
  name = "shipping";
  state_config = ("paid", state true false) ∷ ("shipped", state false true) ∷ [];
  ttl = 1000;
  max_guard_retries = 3;
  transitions = ship_step ∷ [];
  error_transitions = [];
  exception_routes = [];
  enter_actions = [];
  exit_actions = [];
  initially_available_keys = "address" ∷ [];
  externally_provided_keys = [];
  perpetual = false;
  strict_mode = false;
  allow_unreachable = false;
}

abbrev core : FlowDefinition (SubDefinition 1)
core = build_internal shipping

shipping_run :
    (d : FlowDefinition (SubDefinition 1)) × (g : DataFlowGraph) × (build 0 shipping
      ≡ some (built d g))
unfolding open_builder
shipping_run = (_, _, refl)

build-Sound_example :
    Sound 0 shipping (build_internal shipping)
    × (shipping_run.0 ≡ finalize shipping (build_internal shipping))
build-Sound_example = build-Sound 0 shipping shipping_run.0 shipping_run.1 shipping_run.2

build-Agrees_example : Agree 0 shipping (build 0 shipping) (build_and_validate 0 shipping)
build-Agrees_example = build-Agrees 0 shipping

check_sub_flow_nesting_depth_lem_example :
    (check_sub_flow_nesting_depth 1 core 0 ≡ [])
    ↔ ((names : List String) → Chain 1 core names → length names ≤ 4)
check_sub_flow_nesting_depth_lem_example = check_sub_flow_nesting_depth_lem 1 core

check_sub_flow_circular_ref_lem_example :
    (check_sub_flow_circular_ref 1 core [] ≡ []) ↔ Unrepeated [] 1 core
check_sub_flow_circular_ref_lem_example = check_sub_flow_circular_ref_lem 1 core

check_requires_produces-Met_example : Met core ("address" ∷ []) [] "paid" ship_step
unfolding open_builder
check_requires_produces-Met_example =
    check_requires_produces-Met core ("address" ∷ []) [] "paid" refl refl ship_step here
      Followed.start

-- Two ways to "joined": over "priced", where a processor writes the label, and directly. Shipping
-- needs the label; where the check takes the longer way first, it reports nothing.
abbrev plain : String → String → Option StateProcessor → Transition (FlowDefinition ⊥)
plain from to processor = record ship_step { from = from; to = to; processor = processor }

abbrev needs_label : StateProcessor
needs_label = record ship { name = "Post"; requires = "label" ∷ []; produces = [] }

abbrev joining : List (Transition (FlowDefinition ⊥)) → FlowDefinition (SubDefinition 1)
joining first = record core {
  initial_state = some "created";
  transitions =
      first
      ++ plain "priced" "joined" (some ship) ∷ plain "joined" "shipped" (some needs_label) ∷ [];
}

long_way_first :
    check_requires_produces
      (joining (plain "created" "priced" none ∷ plain "created" "joined" none ∷ []))
      ("address" ∷ [])
      []
    ≡ some []
unfolding open_builder
long_way_first = refl

short_way_first :
    check_requires_produces
      (joining (plain "created" "joined" none ∷ plain "created" "priced" none ∷ []))
      ("address" ∷ [])
      []
    ≡ some (
        "Processor 'Post' at joined -> shipped requires label but it may not be available (available: [address])"
        ∷ [])
unfolding open_builder
short_way_first = refl

-- Shipping needs the label, and only a sub-flow's exit leads to it: the check reports nothing.
abbrev behind_exit : FlowDefinition (SubDefinition 1)
behind_exit = record core {
  initial_state = some "created";
  transitions =
      record (plain "created" "created" none) {
        type = sub_flow;
        sub_flow_definition = some order;
        exit_mappings = some (("shipped", "joined") ∷ []);
      }
      ∷ plain "joined" "shipped" (some needs_label)
      ∷ [];
}

exits_not_followed : check_requires_produces behind_exit ("address" ∷ []) [] ≡ some []
unfolding open_builder
exits_not_followed = refl

-- A state that is not configured comes before a terminal one: the check throws at it.
abbrev by_ghost : FlowDefinition (SubDefinition 1)
by_ghost = record core {
  initial_state = some "paid";
  transitions = plain "paid" "ghost" none ∷ plain "paid" "shipped" none ∷ [];
}

ghost_first : check_path_to_terminal by_ghost ≡ throws (type_error "terminal")
unfolding open_builder
ghost_first = refl
