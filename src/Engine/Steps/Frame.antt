-- ===== src/Engine/Steps/Frame.antt =====
-- The parts of a step leave the flow alone, but for the change of state itself.
use tramli.Prelude.{String, ℕ, Bool, Option, none, some, List, [], ◌∷◌, Dict, more, ◌||◌}
use tramli.Context.{Value, has_key}
use tramli.Types.{Callback, StateProcessor}
use tramli.FlowInstance.{FlowInstance, transition_to}
use tramli.FlowStore.{record_transition}
use tramli.Exec
use tramli.Exec.{pure, gets, modify, ◌>>=◌}
use tramli.Exec.Ensures.{
  Ensures, Keeps, Post-if, Ensures-weaken, Ensures-pure, Ensures-gets, Ensures-if, Ensures-bind,
  Ensures-modify, Ensures-when,
}
use tramli.Engine.{Engine, Env, Run, Act}
use tramli.Engine.Frame.{Both, now-Keeps, log_entry-Keeps, call-Keeps, update_flow-Ensures}
use tramli.Engine.Steps.{
  run_action, fire_enter, fire_exit, current_state, move_to, record_step, log_transition,
  check_produces, verify_produces, log_value, log_changes, run_processor, advance,
}

module _ {F : Type 0} (P : F → Type 0) (o : Env) where
  run_action-Keeps : (a : Option (Callback (Unit {0}))) → Keeps (Both P o) (run_action {F = F} a)
  unfolding run_action
  run_action-Keeps none = Ensures-pure tt (λ s h. h)
  run_action-Keeps (some f) = call-Keeps P o f

  check_produces-Keeps :
      (name : String) (ps : List String) → Keeps (Both P o) (check_produces {F = F} name ps)
  unfolding check_produces
  check_produces-Keeps name [] = Ensures-pure tt (λ s h. h)
  check_produces-Keeps name (p ∷ ps) = record {
    at = λ r h.
        Post-if (λ _. Both P o) (Both P o) (has_key p r.env.context) _ _
          (λ _. (check_produces-Keeps name ps).at r h) (λ _. h);
  }

module _ {D F : Type 0} (P : FlowInstance D F → Type 0) (o : Env) where
  pub fire_enter-Keeps : (s : String) → Keeps (Both P o) (fire_enter s)
  unfolding fire_enter
  fire_enter-Keeps s = record { at = λ r h. (run_action-Keeps P o _).at r h }

  pub fire_exit-Keeps : (s : String) → Keeps (Both P o) (fire_exit s)
  unfolding fire_exit
  fire_exit-Keeps s = record { at = λ r h. (run_action-Keeps P o _).at r h }

  pub record_step-Keeps :
      (from to trigger : String) → Keeps (Both P o) (record_step from to trigger)
  unfolding record_step record_transition
  record_step-Keeps from to trigger = Ensures-bind (now-Keeps P o) λ t.
      Ensures-modify _
        λ r (p, h). (p, record { logged = more h.logged _; clock = h.clock; later = h.later })

  pub log_transition-Keeps :
      (e : Engine) (from to trigger : String) → Keeps (Both P o) (log_transition e from to trigger)
  unfolding log_transition
  log_transition-Keeps e from to trigger = record { at = λ r h. (log_entry-Keeps P o _ _).at r h }

  verify_produces-Keeps : (e : Engine) (p : StateProcessor) → Keeps (Both P o) (verify_produces e p)
  unfolding verify_produces pure
  verify_produces-Keeps e p = record {
    at = λ r h.
        Post-if (λ _. Both P o) (Both P o) (e.strict_mode || r.flow.definition.strict_mode) _ _
          (λ _. (check_produces-Keeps P o p.name p.produces).at r h) (λ _. h);
  }

  log_changes-Keeps :
      (e : Engine) (state : String) (before after : Dict Value)
      → Keeps (Both P o) (log_changes e state before after)
  unfolding log_changes
  log_changes-Keeps e state before [] = Ensures-pure tt (λ s h. h)
  log_changes-Keeps e state before ((key, v) ∷ rest) =
      Ensures-bind (log_value-Keeps key v) λ _. log_changes-Keeps e state before rest
    where
      log_value-Keeps :
          (key : String) (v : Value) → Keeps (Both P o) (log_value e state before key v)
      log_value-Keeps key v = record { at = λ r h. (log_entry-Keeps P o _ _).at r h }

  pub run_processor-Keeps :
      (e : Engine) (verify : Bool) (p : Option StateProcessor)
      → Keeps (Both P o) (run_processor e verify p)
  unfolding run_processor
  run_processor-Keeps e verify none = Ensures-pure tt (λ s h. h)
  run_processor-Keeps e verify (some p) =
      Ensures-if e.state_logger
        (λ _. Ensures-bind (Ensures-gets {Q = λ _. Both P o} _ (λ s h. h)) λ before.
          Ensures-bind (Ensures-gets {Q = λ _. Both P o} _ (λ s h. h)) λ state.
            Ensures-bind (call-Keeps P o p.process) λ _. Ensures-bind checked λ _.
              Ensures-bind (Ensures-gets {Q = λ _. Both P o} _ (λ s h. h))
                λ after. log_changes-Keeps e state before after)
        (λ _. Ensures-bind (call-Keeps P o p.process) λ _. checked)
    where
      checked : Keeps (Both P o) (Exec.when verify (verify_produces e p))
      checked = Ensures-when verify (λ _. verify_produces-Keeps e p) (λ s h. h)

  -- A move to a state, and what a condition on the flow becomes by it.
  pub move_to-Ensures :
      (Q : FlowInstance D F → Type 0) (to : String)
      → ((x : FlowInstance D F) (t : ℕ) → P x → Q (transition_to to t x))
      → Ensures (Both P o) (move_to to) (λ _. Both Q o) (Both P o)
  unfolding move_to
  move_to-Ensures Q to k =
      Ensures-bind (now-Keeps P o) λ t. update_flow-Ensures P o Q _ _ (λ x p. k x t p)

-- A throw before the change of state.
early :
    {D F : Type 0} {P Q : FlowInstance D F → Type 0} {o : Env}
    {m : Act (FlowInstance D F) (Unit {0})} {R : Unit {0} → Run (FlowInstance D F) → Type 0}
    → ((x : FlowInstance D F) → P x → Q x)
    → Ensures (Both P o) m R (Both P o)
    → Ensures (Both P o) m R (Both Q o)
early k = Ensures-weaken (λ s h. h) (λ a s h. h) (λ s (p, h). (k s.flow p, h))

-- The condition `P` before the change of state, `Q` after it, and `X` if the actions throw.
pub advance-Ensures :
    {D F : Type 0} (P Q : FlowInstance D F → Type 0) (o : Env) (e : Engine) (to trigger : String)
    → ((x : FlowInstance D F) → P x → Q x)
    → ((x : FlowInstance D F) (t : ℕ) → P x → Q (transition_to to t x))
    → Ensures (Both P o) (advance e to trigger) (λ _. Both Q o) (Both Q o)
unfolding advance current_state
advance-Ensures P Q o e to trigger before after =
    Ensures-bind (Ensures-gets {Q = λ _. Both P o} _ (λ s h. h)) λ from.
      Ensures-bind (early before (fire_exit-Keeps P o from)) λ _.
        Ensures-bind (early before (move_to-Ensures P o Q to after)) λ _.
          Ensures-bind (fire_enter-Keeps Q o to) λ _.
            Ensures-bind (record_step-Keeps Q o from to trigger)
              λ _. log_transition-Keeps Q o e from to trigger
