-- ===== src/Plugins/Resume/Expiry.antt =====
-- The statuses of a flow that is past its deadline.
use tramli.Prelude.{String, eq_refl, ◌≡◌, refl, ℕ, ◌<◌, none, some, Dict}
use tramli.FlowError.{flow_error}
use tramli.Context.{Value}
use tramli.FlowDefinition.{FlowDefinition, SubDefinition}
use tramli.FlowInstance.{SubFlow, complete, is_completed}
use tramli.FlowStore.{Session, load_for_update}
use tramli.Engine.{Engine}
use tramli.Engine.Api.{World}
use tramli.Engine.Api.Expiry.{Gone, resume-expires}
use tramli.Plugins.Resume.{
  RichResumeStatus, code_of, status_of_code, status_of_flow, classify, rich_resume,
}

module _ (e : Engine) (n : ℕ) where
  abbrev Store : Type 0
  Store = World (SubDefinition n) (SubFlow n)

  -- Every attempt to resume it finds nothing and changes nothing.
  abbrev pub Unknown : String → Store → Type 0
  Unknown id w =
      (d : FlowDefinition (SubDefinition n)) (extra : Dict Value) (previous : String)
      → ((rich_resume e n id d extra previous w).0 ≡ w)
        × ((rich_resume e n id d extra previous w).1.status
            ≡ RichResumeStatus.no_applicable_transition)

  Gone-Unknown : (id : String) (w : Store) → Gone e n id w → Unknown id w
  unfolding rich_resume classify code_of status_of_code flow_error
  Gone-Unknown id w gone d extra previous = rw (gone d (some extra)) (refl, refl)

  -- Resuming an open flow after its deadline, with the state that it is in, gives the status
  -- ALREADY_COMPLETE and the flow, ended as EXPIRED, its last error left as it was, and no error;
  -- every later attempt gives the status NO_APPLICABLE_TRANSITION and changes nothing.
  pub rich_resume-expires :
      (id : String) (d : FlowDefinition (SubDefinition n)) (extra : Dict Value) (w : Store)
      (x : Session (SubDefinition n) (SubFlow n))
      → load_for_update id w.store ≡ some x
      → x.flow.id ≡ id
      → x.flow.expires_at < w.clock w.moment
      → ((rich_resume e n id d extra x.flow.current_state w).1 ≡ record {
        status = RichResumeStatus.already_complete;
        flow = some (complete "EXPIRED" x.flow);
        error = none;
      })
        × Unknown id (rich_resume e n id d extra x.flow.current_state w).0
  unfolding rich_resume classify status_of_flow is_completed complete
  rich_resume-expires id d extra w x loaded named late =
      let (v, returned, _, _, _, gone) =
        resume-expires e n id d (some extra) w x loaded named late in
      rw (returned, eq_refl x.flow.current_state) (refl, Gone-Unknown id v gone)
