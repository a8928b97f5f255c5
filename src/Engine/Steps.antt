-- ===== src/Engine/Steps.antt =====
-- The parts of one step (lang/ts/src/flow-engine.ts): actions on entry and exit, processors with
-- their logging and verification, and a move to another state.
pub mod Frame
pub mod Quiet
use tramli.Prelude.{
  String, ◌<>◌, ℕ, Bool, true, not, ◌||◌, if◌then◌else◌, Option, none, some, List, [], ◌∷◌, Dict,
  lookup,
}
use tramli.FlowError.{flow_error}
use tramli.Context.{Value, same_value, has_key, snapshot}
use tramli.Types.{Callback, StateProcessor}
use tramli.FlowDefinition.{enter_action, exit_action}
use tramli.FlowInstance.{FlowInstance, transition_to}
use tramli.FlowStore.{record_transition}
use tramli.Exec.{pure, gets, modify, when, ◌>>=◌, ◌>>◌}
use tramli.Engine.{LogEntry, Engine, Run, Act, raise_error, now, update_flow, log_entry, call}

module _ {F : Type 0} where
  run_action : Option (Callback (Unit {0})) → Act F (Unit {0})
  run_action none = pure tt
  run_action (some action) = call action

  -- The context must have every key that the processor declares.
  unfoldable pub check_produces : String → List String → Act F (Unit {0})
  check_produces name [] r = pure tt r
  check_produces name (p ∷ ps) r =
      let rest = check_produces name ps r in
      if has_key p r.env.context
      then rest
      else raise_error
          (flow_error "PRODUCES_VIOLATION" (
            "Processor '" <> name <> "' declares produces " <> p
            <> " but did not put it in context (strictMode)"))
          r

-- `!before.has(key) || before.get(key) !== value`
changed : String → Value → Dict Value → Bool
changed key v before = elim (lookup key before) [ none ↦ true | some w ↦ not (same_value w v) ]

module _ {D F : Type 0} where
  unfoldable pub fire_enter : String → Act (FlowInstance D F) (Unit {0})
  unfolding run_action
  fire_enter state r = run_action (enter_action state r.flow.definition) r

  unfoldable pub fire_exit : String → Act (FlowInstance D F) (Unit {0})
  unfolding run_action
  fire_exit state r = run_action (exit_action state r.flow.definition) r

  unfoldable pub current_state : Act (FlowInstance D F) String
  current_state = gets (λ r. r.flow.current_state)

  -- `flow.transitionTo(state)`, which reads the clock.
  unfoldable pub move_to : String → Act (FlowInstance D F) (Unit {0})
  move_to state = do t ← now; update_flow (transition_to state t)

  push_record : String → String → String → ℕ → Run (FlowInstance D F) → Run (FlowInstance D F)
  push_record from to trigger t r = record r {
    env = record r.env {
      transition_log = record_transition r.flow.id (some from) to trigger t r.env.transition_log;
    };
  }

  -- `store.recordTransition(flow.id, from, to, trigger, flow.context)`
  unfoldable pub record_step : String → String → String → Act (FlowInstance D F) (Unit {0})
  unfolding push_record
  record_step from to trigger = do t ← now; modify (push_record from to trigger t)

module _ (e : Engine) {D F : Type 0} where
  unfoldable pub log_transition : String → String → String → Act (FlowInstance D F) (Unit {0})
  log_transition from to trigger r =
      log_entry e.transition_logger
        (LogEntry.transition r.flow.id r.flow.definition.name (some from) to trigger) r

  unfoldable pub verify_produces : StateProcessor → Act (FlowInstance D F) (Unit {0})
  verify_produces p r =
      if e.strict_mode || r.flow.definition.strict_mode
      then check_produces p.name p.produces r
      else pure tt r

  log_value : String → Dict Value → String → Value → Act (FlowInstance D F) (Unit {0})
  unfolding changed
  log_value state before key v r =
      log_entry (changed key v before) (LogEntry.state r.flow.id r.flow.definition.name state key v)
        r

  log_changes : String → Dict Value → Dict Value → Act (FlowInstance D F) (Unit {0})
  unfolding log_value
  log_changes state before [] = pure tt
  log_changes state before ((key, v) ∷ rest) = do
    log_value state before key v
    log_changes state before rest

  -- With a state logger the entries of the context that changed are logged.
  unfoldable pub process_and_log : StateProcessor → Bool → Act (FlowInstance D F) (Unit {0})
  unfolding log_changes
  process_and_log p verify = do
    before ← gets (λ r. snapshot r.env.context)
    state ← gets (λ r. r.flow.current_state)
    call p.process
    when verify (verify_produces p)
    after ← gets (λ r. snapshot r.env.context)
    log_changes state before after

  unfoldable pub run_processor : Bool → Option StateProcessor → Act (FlowInstance D F) (Unit {0})
  unfolding process_and_log
  run_processor verify none = pure tt
  run_processor verify (some p) =
      if e.state_logger
      then process_and_log p verify
      else (do call p.process; when verify (verify_produces p))

  -- A move along an edge: exit action, change of state, entry action, record, log.
  unfoldable pub advance : String → String → Act (FlowInstance D F) (Unit {0})
  advance to trigger = do
    from ← current_state
    fire_exit from
    move_to to
    fire_enter to
    record_step from to trigger
    log_transition from to trigger
