-- ===== src/Engine/Errors/Quiet.antt =====
-- The routing of an error never throws and leaves the context alone.
use tramli.Prelude.{String, Option, none, some}
use tramli.FlowError.{Error}
use tramli.Exec.Ensures.{Post-elim}
use tramli.Engine.{Engine}
use tramli.Engine.Frame.Quiet.{
  Quiet, HasContext, update_flow-Quiet, log_entry-Quiet, gets-Quiet, pure-Quiet, bind-Quiet,
  when-Quiet,
}
use tramli.Engine.Steps.Quiet.{
  current_state-Quiet, move_to-Quiet, record_step-Quiet, log_transition-Quiet,
}
use tramli.Engine.Errors.{exception_route, note_cause, divert, fall_back, route_error, handle_error}

module _ (e : Engine) {D F : Type 0} where
  divert-Quiet : (target trigger : String) → Quiet (divert e {D = D} {F = F} target trigger)
  unfolding divert
  divert-Quiet target trigger = bind-Quiet current_state-Quiet λ from.
      bind-Quiet (move_to-Quiet target) λ _. bind-Quiet (record_step-Quiet from target trigger) λ _.
        bind-Quiet (log_transition-Quiet e from target trigger)
          λ _. bind-Quiet (gets-Quiet _) λ terminal. when-Quiet terminal (update_flow-Quiet _)

  fall_back-Quiet : (target : Option String) → Quiet (fall_back e {D = D} {F = F} target)
  unfolding fall_back
  fall_back-Quiet none = update_flow-Quiet _
  fall_back-Quiet (some target) = divert-Quiet target "error"

  route_error-Quiet :
      (from : String) (cause : Option Error) → Quiet (route_error e {D = D} {F = F} from cause)
  unfolding route_error
  route_error-Quiet from cause c = record {
    at = λ r h.
        Post-elim (λ _. HasContext c) (λ _. ⊥) (exception_route from cause r.flow.definition) _ _
          (λ _. (fall_back-Quiet _ c).at r h) (λ route _. (divert-Quiet route.target _ c).at r h);
  }

  note_cause-Quiet : (cause : Option Error) → Quiet (note_cause e {D = D} {F = F} cause)
  unfolding note_cause
  note_cause-Quiet none = pure-Quiet none
  note_cause-Quiet (some cause) =
      bind-Quiet (update_flow-Quiet _) λ _. bind-Quiet (gets-Quiet _) λ available. pure-Quiet _

  pub handle_error-Quiet :
      (from : String) (cause : Option Error) → Quiet (handle_error e {D = D} {F = F} from cause)
  unfolding handle_error
  handle_error-Quiet from cause = bind-Quiet (note_cause-Quiet cause) λ noted.
      bind-Quiet (λ c. record { at = λ r h. (log_entry-Quiet _ _ c).at r h })
        λ _. route_error-Quiet from noted
