-- ===== src/Builder/Reachability.antt =====
-- The check for unreachable states (`checkReachability` of lang/ts/src/flow-definition.ts).
pub mod Exact
use tramli.Prelude.{
  String, ◌<>◌, suc, Bool, true, false, ◌&&◌, ◌||◌, not, if◌then◌else◌, Option, none, some, List,
  [], ◌∷◌, ◌++◌, contains, length, map, truthy, Dict, lookup, values,
}
use tramli.Types.{StateConfig, Transition, is_sub_flow}
use tramli.FlowDefinition.{FlowDefinition, transitions_from}
use tramli.Builder.Search.{search}

-- Where a sub-flow has exit mappings, they are its targets.
exit_targets : {D : Type 0} → Transition D → Option (Dict String) → List String
exit_targets t none = t.to ∷ []
exit_targets t (some exits) = if is_sub_flow t.type then values exits else t.to ∷ []

unfoldable pub targets_of : {D : Type 0} → List (Transition D) → List String
unfolding exit_targets
targets_of [] = []
targets_of (t ∷ ts) = exit_targets t t.exit_mappings ++ targets_of ts

unfoldable pub error_target_of : Option String → List String
error_target_of none = []
error_target_of (some target) = target ∷ []

unfoldable pub unreachable_errors : String → List String → Dict StateConfig → List String
unreachable_errors root visited [] = []
unreachable_errors root visited ((s, cfg) ∷ rest) =
    let later = unreachable_errors root visited rest in
    if not (contains s visited) && not cfg.terminal
    then ("State " <> s <> " is not reachable from " <> root) ∷ later
    else later

module _ {D : Type 0} (d : FlowDefinition D) where
  -- The states that the loop adds to the queue when it is at `state`.
  unfoldable pub next_states : String → List String
  unfolding error_target_of
  next_states state =
      targets_of (transitions_from state d)
      ++ error_target_of (truthy (lookup state d.error_transitions))

  -- The states visited from `root`. There are no more rounds than targets, and one for the root.
  unfoldable pub visited_from : String → List String
  visited_from root =
      search next_states (suc (length (targets_of d.transitions ++ values d.error_transitions)))
        (root ∷ [], root ∷ [])

  reachability_from : Option String → List String
  reachability_from none = []
  reachability_from (some root) = unreachable_errors root (visited_from root) d.state_config

  unfoldable pub check_reachability : List String
  unfolding reachability_from
  check_reachability = reachability_from (truthy d.initial_state)
