-- ===== src/Engine/SubResume.antt =====
-- An external event for the active sub-flow (`resumeSubFlow` of lang/ts/src/flow-engine.ts).
pub mod Follows
use tramli.Prelude.{
  String, ◌<>◌, leb, Bool, true, false, Option, none, some, truthy, List, [], ◌∷◌, Dict, lookup,
}
use tramli.FlowError.{flow_error}
use tramli.Context.{Value}
use tramli.Types.{GuardOutput, accepted, rejected, expired, Transition, TransitionGuard}
use tramli.FlowDefinition.{FlowDefinition, transitions_from, externals_from}
use tramli.FlowInstance.{FlowInstance, complete, set_active_sub_flow, increment_guard_failure}
use tramli.Exec.{pure, gets, when, ◌>>=◌, ◌>>◌}
use tramli.Engine.{GuardResult, Engine, Act, raise_error, update_flow, call}
use tramli.Engine.Select.{select_external}
use tramli.Engine.Steps.{current_state, move_to, record_step, log_transition, advance}
use tramli.Engine.Chain.{sub_flow_in, inside, leave_by, sub_flow_trigger}
use tramli.Engine.External.{put_data, or_refuse, log_guard}

module _ (e : Engine) {D F : Type 0} (chain : Act (FlowInstance D F) (Unit {0})) where
  -- A flow whose active sub-flow is a `FlowInstance D F`.
  abbrev Parent : Type 0
  Parent = FlowInstance (FlowDefinition D) (FlowInstance D F)

  -- `subFlowT?.exitMappings` of the parent's current state.
  exits_at : FlowDefinition (FlowDefinition D) → String → Option (Dict String)
  exits_at definition state = elim (sub_flow_in (transitions_from state definition)) [
    | none ↦ none
    | some t ↦ t.exit_mappings
  ]

  target_in : Option (Dict String) → String → Option String
  target_in none exit = none
  target_in (some exits) exit = truthy (lookup exit exits)

  sub_external : List String → String → FlowDefinition D → Act Parent (Transition D)
  unfolding or_refuse
  sub_external given state definition = elim (externals_from state definition) [
    | [] ↦
        raise_error
          (flow_error "INVALID_TRANSITION" ("No external transition from sub-flow state " <> state))
    | x ∷ xs ↦ or_refuse (select_external (x ∷ xs) given state)
  ]

  sub_accepted : TransitionGuard → Transition D → String → Option (Dict Value) → Act Parent Bool
  unfolding put_data log_guard
  sub_accepted g t from extra = do
    put_data extra
    inside (move_to t.to)
    record_step from t.to g.name
    log_transition e from t.to g.name
    log_guard e from g.name GuardResult.accepted none
    pure true

  -- Out of retries, the sub-flow ends with ERROR, and the parent goes on by its mapping or its
  -- error transition.
  sub_exhausted :
      FlowDefinition (FlowDefinition D) → Act Parent (Unit {0}) → String → Act Parent (Unit {0})
  unfolding exits_at target_in
  sub_exhausted definition parent_chain name = do
    inside (update_flow (complete "ERROR"))
    update_flow (set_active_sub_flow none)
    from ← current_state
    leave_by e chain name "ERROR" (target_in (exits_at definition from) "ERROR")
    parent_chain

  sub_rejected : FlowDefinition (FlowDefinition D) → Act Parent (Unit {0}) → Act Parent Bool
  unfolding sub_exhausted
  sub_rejected definition parent_chain = do
    inside (update_flow (increment_guard_failure none))
    failures ← inside (gets (λ r. r.flow.guard_failure_count))
    d ← inside (gets (λ r. r.flow.definition))
    when (leb d.max_guard_retries failures) (sub_exhausted definition parent_chain d.name)
    pure false

  sub_output :
      FlowDefinition (FlowDefinition D)
      → Act Parent (Unit {0})
      → TransitionGuard
      → Transition D
      → String
      → GuardOutput
      → Act Parent Bool
  unfolding sub_accepted sub_rejected
  sub_output definition parent_chain g t from (accepted extra) = sub_accepted g t from extra
  sub_output definition parent_chain g t from (rejected reason) =
      sub_rejected definition parent_chain
  sub_output definition parent_chain g t from expired = do
    update_flow (complete "EXPIRED")
    pure false

  sub_guard :
      FlowDefinition (FlowDefinition D)
      → Act Parent (Unit {0})
      → Option TransitionGuard
      → Transition D
      → String
      → Act Parent Bool
  unfolding sub_output
  sub_guard definition parent_chain none t from = do inside (move_to t.to); pure true
  sub_guard definition parent_chain (some g) t from = do
    output ← call g.validate
    sub_output definition parent_chain g t from output

  follow_exit : Act Parent (Unit {0}) → String → String → Option String → Act Parent (Unit {0})
  follow_exit parent_chain name exit none = pure tt
  follow_exit parent_chain name exit (some target) = do
    advance e target (sub_flow_trigger name exit)
    parent_chain

  -- A completed sub-flow with no mapping leaves the parent where it is.
  sub_completed :
      FlowDefinition (FlowDefinition D)
      → Act Parent (Unit {0})
      → String
      → Option String
      → Act Parent (Unit {0})
  unfolding exits_at target_in follow_exit
  sub_completed definition parent_chain name none = pure tt
  sub_completed definition parent_chain name (some exit) = do
    update_flow (set_active_sub_flow none)
    from ← current_state
    follow_exit parent_chain name exit (target_in (exits_at definition from) exit)

  unfoldable pub resume_sub_flow :
      FlowDefinition (FlowDefinition D)
      → List String
      → Act Parent (Unit {0})
      → Act Parent (Unit {0})
  unfolding sub_external sub_guard sub_completed
  resume_sub_flow definition given parent_chain = do
    from ← inside current_state
    d ← inside (gets (λ r. r.flow.definition))
    t ← sub_external given from d
    again ← sub_guard definition parent_chain t.guard t from
    when again (do
      inside chain
      exit ← inside (gets (λ r. r.flow.exit_state))
      sub_completed definition parent_chain d.name exit)
