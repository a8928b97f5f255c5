-- ===== src/Engine/Api/Expiry.antt =====
-- Resuming a flow after its deadline, and resuming a flow that has ended.
use tramli.Prelude.{
  String, ◌<>◌, ◌≡◌, refl, ap, ℕ, ◌+◌, ◌<◌, Option, none, some, Dict, lookup, lookup-insert_self,
  subst,
}
use tramli.FlowError.{error, flow_error}
use tramli.Context.{Value, put_all}
use tramli.FlowDefinition.{FlowDefinition, SubDefinition}
use tramli.FlowInstance.{SubFlow, complete, is_completed}
use tramli.FlowStore.{Session, load_for_update, save}
use tramli.Exec.{done, raised}
use tramli.Engine.{Engine}
use tramli.Engine.External.{accepted_data}
use tramli.Engine.Resume.Expiry.{expire, resume_loaded-expire}
use tramli.Engine.Api.{World, enter, settle, settle_outcome, resume_and_execute}

module _ (e : Engine) (n : ℕ) where
  -- Every attempt to resume the flow throws FLOW_NOT_FOUND and changes nothing.
  abbrev pub Gone : String → World (SubDefinition n) (SubFlow n) → Type 0
  Gone id w =
      (d : FlowDefinition (SubDefinition n)) (extra : Option (Dict Value))
      → resume_and_execute e n id d extra w
        ≡ raised
            (error
              (flow_error "FLOW_NOT_FOUND" ("Flow " <> id <> " not found or already completed")))
            w

  ended-Gone :
      (id : String) (w : World (SubDefinition n) (SubFlow n))
      (x : Session (SubDefinition n) (SubFlow n)) (exit : String)
      → lookup id w.store.flows ≡ some x
      → x.flow.exit_state ≡ some exit
      → Gone id w
  unfolding resume_and_execute load_for_update is_completed
  ended-Gone id w x exit stored ended d extra =
      let absent : load_for_update id w.store ≡ none = rw (stored, load_for_update, ended) refl in
      rw (absent, resume_and_execute) refl

  -- Resuming an open flow after its deadline returns the flow, ended as EXPIRED, its last error
  -- left as it was, with the given data put into its context, no transition recorded and the clock
  -- read once; every later attempt to resume it throws FLOW_NOT_FOUND and changes nothing.
  pub resume-expires :
      (id : String) (d : FlowDefinition (SubDefinition n)) (extra : Option (Dict Value))
      (w : World (SubDefinition n) (SubFlow n)) (x : Session (SubDefinition n) (SubFlow n))
      → load_for_update id w.store ≡ some x
      → x.flow.id ≡ id
      → x.flow.expires_at < w.clock w.moment
      → (v : World (SubDefinition n) (SubFlow n)) × (resume_and_execute e n id d extra w
          ≡ done (complete "EXPIRED" x.flow) v)
        × (lookup id v.store.flows
            ≡ some (record {
              flow = complete "EXPIRED" x.flow;
              context = put_all (accepted_data extra) x.context;
            }))
        × (v.store.transition_log ≡ w.store.transition_log)
        × (v.moment ≡ w.moment + 1)
        × Gone id v
  unfolding resume_and_execute enter settle_outcome settle save complete put_all
  resume-expires id d extra w x loaded named late =
      (after, returned, kept, refl, refl, ended-Gone id after session "EXPIRED" kept refl)
    where
      session : Session (SubDefinition n) (SubFlow n)
      session = record {
        flow = complete "EXPIRED" x.flow;
        context = put_all (accepted_data extra) x.context;
      }

      after : World (SubDefinition n) (SubFlow n)
      after = settle w (expire extra (enter x w))

      returned : resume_and_execute e n id d extra w ≡ done (complete "EXPIRED" x.flow) after
      returned =
          rw (loaded, resume_and_execute)
            (ap (settle_outcome w) (resume_loaded-expire e n d extra (enter x w) late))

      kept : lookup id after.store.flows ≡ some session
      kept =
          subst (λ k. lookup k after.store.flows ≡ some session) named
            (lookup-insert_self x.flow.id session w.store.flows)
