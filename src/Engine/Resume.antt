-- ===== src/Engine/Resume.antt =====
-- `resumeAndExecute` of lang/ts/src/flow-engine.ts, from the loaded flow on. The store is settled by
-- the caller, in Api.antt.
pub mod Follows
pub mod Expiry
use tramli.Prelude.{String, ℕ, zero, suc, ltb, Bool, true, false, Option, none, some, List, Dict}
use tramli.Context.{Value}
use tramli.FlowDefinition.{FlowDefinition, SubDefinition}
use tramli.FlowInstance.{FlowInstance, SubFlow, complete}
use tramli.Exec.{gets, ◌>>=◌, ◌>>◌}
use tramli.Engine.{Engine, Act, now, update_flow}
use tramli.Engine.Chain.{execute_auto_chain}
use tramli.Engine.External.{data_keys, put_data, resume_state}
use tramli.Engine.SubResume.{resume_sub_flow}

module _ (e : Engine) where
  -- Where no sub-flow is active, the flow's own state is resumed.
  resume_active :
      (n : ℕ)
      → FlowDefinition (SubDefinition n)
      → List String
      → Act (FlowInstance (SubDefinition n) (SubFlow n)) (Unit {0})
  resume_active zero definition given r =
      resume_state e definition given (execute_auto_chain e zero) r
  resume_active (suc n) definition given r = elim r.flow.active_sub_flow [
    | none ↦ resume_state e definition given (execute_auto_chain e (suc n)) r
    | some s ↦
        resume_sub_flow e (execute_auto_chain e n) definition given (execute_auto_chain e (suc n)) r
  ]

  unless_expired :
      (n : ℕ)
      → FlowDefinition (SubDefinition n)
      → List String
      → Bool
      → Act (FlowInstance (SubDefinition n) (SubFlow n)) (Unit {0})
  unfolding resume_active
  unless_expired n definition given true = update_flow (complete "EXPIRED")
  unless_expired n definition given false = resume_active n definition given

  -- `resumeAndExecute` from the loaded flow on.
  unfoldable pub resume_loaded :
      (n : ℕ)
      → FlowDefinition (SubDefinition n)
      → Option (Dict Value)
      → Act (FlowInstance (SubDefinition n) (SubFlow n)) (Unit {0})
  unfolding put_data data_keys unless_expired
  resume_loaded n definition extra = do
    put_data extra
    t ← now
    expires ← gets (λ r. r.flow.expires_at)
    unless_expired n definition (data_keys extra) (ltb expires t)
