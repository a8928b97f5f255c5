-- ===== src/Builder/Checks.antt =====
-- Checks of single transitions and states (`checkBranchCompleteness`, `checkAutoExternalConflict` and
-- `checkSubFlowExitCompleteness` of lang/ts/src/flow-definition.ts). Each gives its errors.
use tramli.Prelude.{
  String, ◌<>◌, false, ◌&&◌, ◌||◌, if◌then◌else◌, Option, none, some, is_some, List, [], ◌∷◌, ◌++◌,
  any, contains, Dict, lookup,
}
use tramli.Types.{Transition, is_auto, is_branch, is_external, is_sub_flow}
use tramli.FlowDefinition.{FlowDefinition, transitions_from, all_states}

branch_errors : List String → Dict String → List String
branch_errors states [] = []
branch_errors states ((label, target) ∷ rest) =
    let later = branch_errors states rest in
    if contains target states
    then later
    else ("Branch target '" <> label <> "' -> " <> target <> " is not a valid state") ∷ later

module _ {D : Type 0} where
  branch_errors_of : List String → List (Transition D) → List String
  unfolding branch_errors
  branch_errors_of states [] = []
  branch_errors_of states (t ∷ ts) =
      (if is_branch t.type then branch_errors states t.branch_targets else [])
      ++ branch_errors_of states ts

  unfoldable pub check_branch_completeness : FlowDefinition D → List String
  unfolding branch_errors_of
  check_branch_completeness d = branch_errors_of (all_states d) d.transitions

  conflict_errors : FlowDefinition D → List String → List String
  conflict_errors d [] = []
  conflict_errors d (state ∷ states) =
      let later = conflict_errors d states in
      if any (λ t. is_auto t.type || is_branch t.type) (transitions_from state d)
        && any (λ t. is_external t.type) (transitions_from state d)
      then ("State " <> state
          <> " has both auto/branch and external transitions — auto takes priority, making external unreachable")
        ∷ later
      else later

  unfoldable pub check_auto_external_conflict : FlowDefinition D → List String
  unfolding conflict_errors
  check_auto_external_conflict d = conflict_errors d (all_states d)

exit_errors : String → String → Option (Dict String) → List String → List String
exit_errors name from exits [] = []
exit_errors name from exits (terminal ∷ rest) =
    let later = exit_errors name from exits rest in
    if elim exits [ none ↦ false | some m ↦ is_some (lookup terminal m) ]
    then later
    else ("SubFlow '" <> name <> "' at " <> from <> " has terminal state " <> terminal
        <> " with no onExit mapping")
      ∷ later

module _ {D : Type 0} where
  exit_errors_of : List (Transition (FlowDefinition D)) → List String
  unfolding exit_errors
  exit_errors_of [] = []
  exit_errors_of (t ∷ ts) =
      (elim t.sub_flow_definition [
        | none ↦ []
        | some sub ↦
            if is_sub_flow t.type
            then exit_errors sub.name t.from t.exit_mappings sub.terminal_states
            else []
      ])
      ++ exit_errors_of ts

  unfoldable pub check_sub_flow_exit_completeness : FlowDefinition (FlowDefinition D) → List String
  unfolding exit_errors_of
  check_sub_flow_exit_completeness d = exit_errors_of d.transitions
