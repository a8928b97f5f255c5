-- ===== src/Builder/Terminal.antt =====
-- Whether a terminal state can be reached (`checkPathToTerminal` and `canReachTerminal` of
-- lang/ts/src/flow-definition.ts). `kind` gives `stateConfig[s]?.terminal`: reading the field of a
-- state that is not there throws. The fuel counts nested calls.
pub mod Search
pub mod Exact
use tramli.Prelude.{
  String, ◌<>◌, ℕ, zero, suc, Bool, true, false, if◌then◌else◌, Option, none, some, List, [], ◌∷◌,
  ◌++◌, contains, add, length, truthy, lookup, values,
}
use tramli.FlowError.{Error, type_error}
use tramli.FlowDefinition.{FlowDefinition, transitions_from, all_states}
use tramli.Builder.Reachability.{targets_of, error_target_of}

-- What a walk gives: `true`; `false`, with the states visited so far; or a throw, at a state that is
-- not in the configuration.
pub data Walk : Type 0 where
  found : Walk
  exhausted : List String → Walk
  crashed : String → Walk

abbrev unless_found : Walk → (List String → Walk) → Walk
unless_found found k = found
unless_found (exhausted visited) k = k visited
unless_found (crashed s) k = crashed s

unfoldable pub try_all : (String → List String → Walk) → List String → List String → Walk
try_all visit [] visited = exhausted visited
try_all visit (t ∷ ts) visited = unless_found (visit t visited) (try_all visit ts)

module _ (kind : String → Option Bool) (next : String → List String) where
  unfoldable pub can_reach_terminal : ℕ → String → List String → Walk
  can_reach_terminal zero state visited = exhausted visited
  can_reach_terminal (suc fuel) state visited =
      let explore = try_all (can_reach_terminal fuel) (next state) (add state visited) in
      elim (kind state) [
        | none ↦ crashed state
        | some terminal ↦
            if terminal
            then found
            else if contains state visited
            then exhausted visited
            else explore
      ]

module _ {D : Type 0} (d : FlowDefinition D) where
  unfoldable pub terminal_of : String → Option Bool
  terminal_of state = elim (lookup state d.state_config) [ none ↦ none | some c ↦ some c.terminal ]

  -- The targets in the order in which they are tried, the state's error transition last.
  unfoldable pub tried_states : String → List String
  unfolding error_target_of
  tried_states state =
      targets_of (transitions_from state d) ++ error_target_of (lookup state d.error_transitions)

  -- Every state that can be tried, and so enough fuel.
  unfoldable pub possible_states : String → List String
  possible_states root = root ∷ (targets_of d.transitions ++ values d.error_transitions)

  unfoldable pub terminal_walk : String → Walk
  terminal_walk root =
      can_reach_terminal terminal_of tried_states (suc (length (possible_states root))) root []

-- The errors that a check adds, or what it throws.
pub data Checked : Type 0 where
  reports : List String → Checked
  throws : Error → Checked

path_errors : String → Walk → Checked
path_errors root found = reports []
path_errors root (exhausted visited) =
    reports (("No path from " <> root <> " to any terminal state") ∷ [])
path_errors root (crashed s) = throws (type_error "terminal")

module _ {D : Type 0} where
  path_from : FlowDefinition D → Option String → Checked
  unfolding path_errors
  path_from d none = reports []
  path_from d (some root) = path_errors root (terminal_walk d root)

  unfoldable pub check_path_to_terminal : FlowDefinition D → Checked
  unfolding path_from
  check_path_to_terminal d = path_from d (truthy d.initial_state)
