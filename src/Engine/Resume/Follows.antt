-- ===== src/Engine/Resume/Follows.antt =====
-- Resuming a loaded flow leads it along the edges of its definition.
use tramli.Prelude.{◌≡◌, ℕ, zero, suc, Bool, true, false, Option, List, String, Dict}
use tramli.Context.{Value}
use tramli.FlowDefinition.{FlowDefinition, SubDefinition}
use tramli.FlowInstance.{FlowInstance, SubFlow}
use tramli.FlowInstance.Follows.{Follows, complete-Follows}
use tramli.Exec.Ensures.{Keeps, Ensures-bind, Ensures-gets, Post-elim}
use tramli.Engine.{Engine, Env}
use tramli.Engine.Frame.{Both, now-Keeps, update_flow-Ensures}
use tramli.Engine.Chain.SubFlows.{execute_auto_chain-Safe}
use tramli.Engine.External.Follows.{put_data-Keeps, resume_state-Keeps}
use tramli.Engine.SubResume.Follows.{resume_sub_flow-Keeps}
use tramli.Engine.Resume.{resume_active, unless_expired, resume_loaded}

module _ (e : Engine) where
  resume_active-Keeps :
      (n : ℕ) (d : FlowDefinition (SubDefinition n)) (given : List String)
      (i : FlowInstance (SubDefinition n) (SubFlow n)) (o : Env)
      → d ≡ i.definition
      → Keeps (Both (Follows i) o) (resume_active e n d given)
  unfolding resume_active
  resume_active-Keeps zero d given i o own =
      let k = resume_state-Keeps e d given _ i o own (execute_auto_chain-Safe e zero i o) in
      record { at = λ r h. k.at r h }
  resume_active-Keeps (suc n) d given i o own = record {
    at = λ r h.
        let onward = execute_auto_chain-Safe e (suc n) i o in
        Post-elim (λ _. Both (Follows i) o) (Both (Follows i) o) r.flow.active_sub_flow _ _
          (λ _. (resume_state-Keeps e d given _ i o own onward).at r h)
          (λ sub _.
            (resume_sub_flow-Keeps e _ (execute_auto_chain-Safe e n) i o d own _ onward given).at r
              h);
  }

  -- With the flow's own definition, the flow stays itself and moves along edges only.
  pub resume_loaded-Keeps :
      (n : ℕ) (d : FlowDefinition (SubDefinition n)) (extra : Option (Dict Value))
      (i : FlowInstance (SubDefinition n) (SubFlow n)) (o : Env)
      → d ≡ i.definition
      → Keeps (Both (Follows i) o) (resume_loaded e n d extra)
  unfolding resume_loaded
  resume_loaded-Keeps n d extra i o own = Ensures-bind (put_data-Keeps (Follows i) o extra) λ _.
      Ensures-bind (now-Keeps (Follows i) o) λ t.
        Ensures-bind (Ensures-gets {Q = λ _. Both (Follows i) o} _ (λ r h. h))
          λ expires. unless-Keeps _ _
    where
      unless-Keeps :
          (given : List String) (late : Bool)
          → Keeps (Both (Follows i) o) (unless_expired e n d given late)
      unless-Keeps given true =
          update_flow-Ensures (Follows i) o (Follows i) _ _ (λ x f. complete-Follows x _ f)
      unless-Keeps given false = resume_active-Keeps n d given i o own
