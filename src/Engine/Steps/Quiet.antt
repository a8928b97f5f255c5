-- ===== src/Engine/Steps/Quiet.antt =====
-- Moves and records call no code of the user.
use tramli.Prelude.{String}
use tramli.Exec.{modify}
use tramli.Engine.{Engine}
use tramli.Engine.Frame.Quiet.{
  Quiet, now-Quiet, update_flow-Quiet, log_entry-Quiet, gets-Quiet, bind-Quiet,
}
use tramli.Engine.Steps.{current_state, move_to, record_step, log_transition}

module _ {D F : Type 0} where
  pub current_state-Quiet : Quiet (current_state {D = D} {F = F})
  unfolding current_state
  current_state-Quiet = gets-Quiet _

  pub move_to-Quiet : (s : String) → Quiet (move_to {D = D} {F = F} s)
  unfolding move_to
  move_to-Quiet s = bind-Quiet now-Quiet (λ t. update_flow-Quiet _)

  pub record_step-Quiet :
      (from to trigger : String) → Quiet (record_step {D = D} {F = F} from to trigger)
  unfolding record_step modify
  record_step-Quiet from to trigger = bind-Quiet now-Quiet (λ t c. record { at = λ r h. h })

  pub log_transition-Quiet :
      (e : Engine) (from to trigger : String)
      → Quiet (log_transition e {D = D} {F = F} from to trigger)
  unfolding log_transition
  log_transition-Quiet e from to trigger c = record { at = λ r h. (log_entry-Quiet _ _ c).at r h }
