-- ===== src/Engine/External.antt =====
-- An external transition of a flow that has no active sub-flow (the middle of `resumeAndExecute` of
-- lang/ts/src/flow-engine.ts). An early `return flow` ends the action.
pub mod Follows
pub mod Rejection
use tramli.Prelude.{
  String, ℕ, ◌+◌, ltb, leb, Bool, true, false, Option, none, some, List, [], ◌∷◌, Dict, keys,
}
use tramli.FlowError.{as_error, invalid_transition, Thrown}
use tramli.Context.{Value, put_all, snapshot, restore_from}
use tramli.Types.{GuardOutput, accepted, rejected, expired, Transition, TransitionGuard}
use tramli.FlowDefinition.{FlowDefinition, externals_from}
use tramli.FlowInstance.{FlowInstance, complete, increment_guard_failure}
use tramli.Exec.{pure, gets, catch, when, ◌>>=◌, ◌>>◌}
use tramli.Engine.{
  LogEntry, GuardResult, Engine, Act, raise_error, now, update_context, update_flow, log_entry,
  call,
}
use tramli.Engine.Select.{Selection, selected, refused, select_external}
use tramli.Engine.Steps.{current_state, run_processor, advance}
use tramli.Engine.Errors.{handle_error}

-- `new Set(externalData.keys())`, empty where there is no data
unfoldable pub data_keys : Option (Dict Value) → List String
data_keys none = []
data_keys (some m) = keys m

-- The data of an accepted guard.
unfoldable pub accepted_data : Option (Dict Value) → Dict Value
accepted_data none = []
accepted_data (some m) = m

module _ {F : Type 0} where
  unfoldable pub put_data : Option (Dict Value) → Act F (Unit {0})
  unfolding accepted_data
  put_data m = update_context (put_all (accepted_data m))

  unfoldable pub or_refuse : {D : Type 0} → Selection D → Act F (Transition D)
  or_refuse (selected t) = pure t
  or_refuse (refused x) = raise_error x

module _ (e : Engine) {D F : Type 0} where
  unfoldable pub log_guard :
      String → String → GuardResult → Option String → Act (FlowInstance D F) (Unit {0})
  log_guard state name result reason r =
      log_entry e.guard_logger
        (LogEntry.guard r.flow.id r.flow.definition.name state name result reason) r

  take_external : TransitionGuard → Transition D → Act (FlowInstance D F) (Unit {0})
  take_external g t = do run_processor e false t.processor; advance e t.to g.name

  -- Context and errors of a guarded transition that fails: routed from the state it started in.
  recover_at : String → Dict Value → Thrown → Act (FlowInstance D F) Bool
  recover_at state backup x = do
    update_context (restore_from backup)
    handle_error e state (some (as_error x))
    pure false

  on_accepted :
      TransitionGuard → Transition D → String → Option (Dict Value) → Act (FlowInstance D F) Bool
  unfolding log_guard put_data take_external recover_at
  on_accepted g t state extra = do
    log_guard state g.name GuardResult.accepted none
    backup ← gets (λ r. snapshot r.env.context)
    put_data extra
    catch (do take_external g t; pure true) (recover_at state backup)

  on_rejected : ℕ → String → String → String → Act (FlowInstance D F) Bool
  unfolding log_guard
  on_rejected max_retries name state reason = do
    log_guard state name GuardResult.rejected (some reason)
    update_flow (increment_guard_failure (some name))
    failures ← gets (λ r. r.flow.guard_failure_count)
    when (leb max_retries failures) (handle_error e state none)
    pure false

  on_expired : String → String → Act (FlowInstance D F) Bool
  unfolding log_guard
  on_expired name state = do
    log_guard state name GuardResult.expired none
    update_flow (complete "EXPIRED")
    pure false

  -- `switch (output.type)`: `true` if the automatic chain follows.
  unfoldable pub on_output :
      ℕ → TransitionGuard → Transition D → String → GuardOutput → Act (FlowInstance D F) Bool
  unfolding on_accepted on_rejected on_expired
  on_output max_retries g t state (accepted extra) = on_accepted g t state extra
  on_output max_retries g t state (rejected reason) = on_rejected max_retries g.name state reason
  on_output max_retries g t state expired = on_expired g.name state

  unfoldable pub pass_guard :
      ℕ → Option TransitionGuard → Transition D → String → Act (FlowInstance D F) Bool
  pass_guard max_retries none t state = do advance e t.to "external"; pure true
  pass_guard max_retries (some g) t state = do
    output ← call g.validate
    on_output max_retries g t state output

  -- The transition's own deadline: `true` once it has passed.
  past_deadline : Option ℕ → Act (FlowInstance D F) Bool
  past_deadline none = pure false
  past_deadline (some timeout) = do
    t ← now
    entered ← gets (λ r. r.flow.state_entered_at)
    pure (ltb (entered + timeout) t)

  external_at : FlowDefinition D → List String → String → Act (FlowInstance D F) (Transition D)
  unfolding or_refuse
  external_at definition given state = elim (externals_from state definition) [
    | [] ↦ raise_error (invalid_transition state state)
    | x ∷ xs ↦ or_refuse (select_external (x ∷ xs) given state)
  ]

  in_time :
      FlowDefinition D
      → Transition D
      → String
      → Act (FlowInstance D F) (Unit {0})
      → Bool
      → Act (FlowInstance D F) (Unit {0})
  in_time definition t state chain true = update_flow (complete "EXPIRED")
  in_time definition t state chain false = do
    again ← pass_guard definition.max_guard_retries t.guard t state
    when again chain

  unfoldable pub resume_state :
      FlowDefinition D
      → List String
      → Act (FlowInstance D F) (Unit {0})
      → Act (FlowInstance D F) (Unit {0})
  unfolding external_at past_deadline in_time
  resume_state definition given chain = do
    state ← current_state
    t ← external_at definition given state
    late ← past_deadline t.timeout
    in_time definition t state chain late
