-- ===== src/Plugins/Resume.antt =====
-- Resuming with a status (lang/ts-plugins/src/resume/rich-resume.ts). A thrown `null` or `undefined`,
-- which has no field to read, is left aside.
pub mod Expiry
use tramli.Prelude.{String, ℕ, ◌==◌, ◌&&◌, not, Bool, if◌then◌else◌, Option, none, some, Dict}
use tramli.FlowError.{Thrown, error, value}
use tramli.Context.{Value}
use tramli.FlowDefinition.{FlowDefinition, SubDefinition}
use tramli.FlowInstance.{FlowInstance, SubFlow, is_completed}
use tramli.Exec.{Outcome, done, raised}
use tramli.Engine.{Engine}
use tramli.Engine.Api.{World, resume_and_execute}

pub data RichResumeStatus : Type 0 where
  transitioned already_complete no_applicable_transition rejected exception_routed :
      RichResumeStatus

pub record RichResumeResult (F : Type 0) : Type 0 where
  pub status : RichResumeStatus
  pub flow : Option F
  pub error : Option Thrown

code_of : Thrown → Option String
code_of (error x) = x.code
code_of (value s) = none

status_of_code : Option String → RichResumeStatus
status_of_code none = RichResumeStatus.exception_routed
status_of_code (some code) =
    if code == "FLOW_ALREADY_COMPLETED"
    then RichResumeStatus.already_complete
    else if code == "FLOW_NOT_FOUND"
    then RichResumeStatus.no_applicable_transition
    else if code == "INVALID_TRANSITION"
    then RichResumeStatus.no_applicable_transition
    else RichResumeStatus.exception_routed

module _ {D F : Type 0} where
  status_of_flow : String → FlowInstance D F → RichResumeStatus
  status_of_flow previous flow =
      if is_completed flow && flow.current_state == previous
      then RichResumeStatus.already_complete
      else if flow.current_state == previous && not (is_completed flow)
      then RichResumeStatus.rejected
      else RichResumeStatus.transitioned

  -- The result, and what the call leaves behind.
  classify :
      String
      → Outcome (World D F) (FlowInstance D F)
      → World D F × RichResumeResult (FlowInstance D F)
  unfolding status_of_flow code_of status_of_code
  classify previous (done flow w) =
      (w, record { status = status_of_flow previous flow; flow = some flow; error = none })
  classify previous (raised x w) =
      (w, record { status = status_of_code (code_of x); flow = none; error = some x })

module _ (e : Engine) (n : ℕ) where
  unfoldable pub rich_resume :
      String
      → FlowDefinition (SubDefinition n)
      → Dict Value
      → String
      → World (SubDefinition n) (SubFlow n)
      → World (SubDefinition n) (SubFlow n)
        × RichResumeResult (FlowInstance (SubDefinition n) (SubFlow n))
  unfolding classify
  rich_resume id definition extra previous w =
      classify previous (resume_and_execute e n id definition (some extra) w)
