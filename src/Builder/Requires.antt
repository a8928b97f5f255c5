-- ===== src/Builder/Requires.antt =====
-- Whether the data that transitions require are available (`checkRequiresProduces` of
-- lang/ts/src/flow-definition.ts).
pub mod Legs
pub mod Ways
pub mod Provided
use tramli.Prelude.{
  String, ◌<>◌, ℕ, suc, Bool, true, false, if◌then◌else◌, Option, none, some, List, [], ◌∷◌, ◌++◌,
  map, length, contains, add_all, join, sort, truthy, lookup, values,
}
use tramli.Types.{Transition, TransitionGuard, BranchProcessor, StateProcessor, is_external}
use tramli.FlowDefinition.{FlowDefinition, transitions_from}
use tramli.Availability.{Seen, Leg, walk, budget}
use tramli.DataFlowGraph.{guard_produces, available_through, known_keys}

avail_list : List String → String
avail_list available = "(available: [" <> join ", " (sort available) <> "])"

-- One error for each key that is not available.
unfoldable pub require_errors : String → List String → List String → List String
unfolding avail_list
require_errors who available [] = []
require_errors who available (req ∷ reqs) =
    let later = require_errors who available reqs in
    if contains req available
    then later
    else (who <> " requires " <> req <> " but it may not be available " <> avail_list available)
      ∷ later

module _ {D : Type 0} where
  guard_needs : Transition D → Option TransitionGuard → List String → List String
  guard_needs t none available = []
  guard_needs t (some g) available =
      require_errors ("Guard '" <> g.name <> "' at " <> t.from) available g.requires

  branch_needs : Transition D → Option BranchProcessor → List String → List String
  branch_needs t none available = []
  branch_needs t (some b) available =
      require_errors ("Branch '" <> b.name <> "' at " <> t.from) available b.requires

  processor_needs : Transition D → Option StateProcessor → List String → List String
  processor_needs t none available = []
  processor_needs t (some p) available =
      require_errors ("Processor '" <> p.name <> "' at " <> t.from <> " -> " <> t.to) available
        p.requires

  -- The data before the guard, and after it.
  unfoldable pub at_event : List String → Transition D → List String → List String
  at_event provided t base = if is_external t.type then add_all provided base else base

  unfoldable pub past_guard : List String → Transition D → List String → List String
  past_guard provided t base = add_all (guard_produces t) (at_event provided t base)

  transition_errors : List String → Transition D → List String → List String
  unfolding guard_needs branch_needs processor_needs at_event past_guard
  transition_errors provided t base =
      guard_needs t t.guard (at_event provided t base)
      ++ (branch_needs t t.branch (past_guard provided t base)
          ++ processor_needs t t.processor (past_guard provided t base))

  pub main_leg : List String → Transition D → Leg (List String)
  unfolding transition_errors
  main_leg provided t = record {
    target = t.to;
    flow = λ base errors.
        (available_through provided t base, errors ++ transition_errors provided t base);
  }

  -- Where a processor fails, what it produces is not available.
  pub error_leg : Transition D → String → Leg (List String)
  error_leg t target = record {
    target = target;
    flow = λ base errors. (add_all (guard_produces t) base, errors);
  }

  error_leg_to : Transition D → Option String → List (Leg (List String))
  unfolding error_leg
  error_leg_to t none = []
  error_leg_to t (some target) = error_leg t target ∷ []

  error_legs : FlowDefinition D → Transition D → Option StateProcessor → List (Leg (List String))
  unfolding error_leg_to
  error_legs d t none = []
  error_legs d t (some p) = error_leg_to t (truthy (lookup t.from d.error_transitions))

  unfoldable pub legs_of :
      FlowDefinition D → List String → List (Transition D) → List (Leg (List String))
  unfolding main_leg error_legs
  legs_of d provided [] = []
  legs_of d provided (t ∷ ts) =
      main_leg provided t ∷ (error_legs d t t.processor ++ legs_of d provided ts)

  unfoldable pub visited_states : String → FlowDefinition D → List String
  visited_states root d = root ∷ (map (λ t. t.to) d.transitions ++ values d.error_transitions)

module _ {D : Type 0} (d : FlowDefinition D) (initially provided : List String) where
  unfoldable pub requires_walk : String → Option (Seen × List String)
  unfolding legs_of
  requires_walk root =
      walk (λ s. legs_of d provided (transitions_from s d))
        (suc (budget (visited_states root d) (length (known_keys initially provided d)))) root
        (add_all initially []) ([], [])

  errors_of : Option (Seen × List String) → Option (List String)
  errors_of none = none
  errors_of (some (seen, errors)) = some errors

  requires_from : Option String → Option (List String)
  unfolding errors_of
  requires_from none = some []
  requires_from (some root) = errors_of (requires_walk root)

  -- The errors; `none`: the walk did not end within its fuel.
  unfoldable pub check_requires_produces : Option (List String)
  unfolding requires_from
  check_requires_produces = requires_from (truthy d.initial_state)
