-- ===== src/Plugins/Idempotency/Once.antt =====
-- A command is carried out once at most.
use tramli.Prelude.{
  String, ◌<>◌, ◌≡◌, refl, sym, ap, ◌∙◌, subst, ℕ, inl, inr, none, some, List, [], ◌∷◌, contains,
  Bool-cases, Member,
}
use tramli.FlowError.{error, plain_error}
use tramli.FlowDefinition.{FlowDefinition, SubDefinition}
use tramli.FlowInstance.{SubFlow}
use tramli.Pipeline.Available.{contains-Member, Member-contains, add-Member, add-Member_old}
use tramli.Engine.{Engine}
use tramli.Plugins.Resume.{RichResumeStatus}
use tramli.Plugins.Idempotency.{
  CommandEnvelope, seen_key, mark_if_first_seen, Desk, duplicate, delegate, idempotent_resume,
}

module _ (e : Engine) (n : ℕ) where
  -- A call for a flow, of that definition, with the state that the caller knows.
  pub record Call : Type 0 where
    pub id : String
    pub definition : FlowDefinition (SubDefinition n)
    pub envelope : CommandEnvelope
    pub before : String

  abbrev After : Type 0
  After = Desk (SubDefinition n) (SubFlow n)

  -- Calls one after the other.
  abbrev pub run_calls : List Call → After → After
  run_calls [] desk = desk
  run_calls (c ∷ cs) desk =
      run_calls cs (idempotent_resume e n c.id c.definition c.envelope c.before desk).0

  abbrev SeenIn : Call → After → Type 0
  SeenIn c desk = Member (seen_key c.id c.envelope.command_id) desk.seen

  resume-seen :
      (c : Call) (desk : After)
      → SeenIn c (idempotent_resume e n c.id c.definition c.envelope c.before desk).0
        × ((k : String)
            → Member k desk.seen
            → Member k (idempotent_resume e n c.id c.definition c.envelope c.before desk).0.seen)
  unfolding idempotent_resume delegate mark_if_first_seen
  resume-seen c desk =
      elim (Bool-cases (contains (seen_key c.id c.envelope.command_id) desk.seen)) [
        | inl q ↦ rw q (contains-Member (seen_key c.id c.envelope.command_id) desk.seen q, λ k m. m)
        | inr q ↦ rw q (
          add-Member (seen_key c.id c.envelope.command_id) desk.seen,
          λ k m. add-Member_old (seen_key c.id c.envelope.command_id) desk.seen m,
        )
      ]

  run_calls-seen :
      (cs : List Call) (desk : After) {k : String}
      → Member k desk.seen
      → Member k (run_calls cs desk).seen
  run_calls-seen [] desk m = m
  run_calls-seen (c ∷ cs) desk {k} m =
      run_calls-seen cs (idempotent_resume e n c.id c.definition c.envelope c.before desk).0
        ((resume-seen c desk).1 k m)

  -- The call changes neither the flows nor the registry, and says that the command is complete.
  abbrev pub Suppressed : Call → After → Type 0
  Suppressed c desk = idempotent_resume e n c.id c.definition c.envelope c.before desk ≡ (
    desk,
    record {
      status = RichResumeStatus.already_complete;
      flow = none;
      error = some (error (plain_error ("duplicate commandId " <> c.envelope.command_id)));
    },
  )

  SeenIn-Suppressed : (c : Call) (desk : After) → SeenIn c desk → Suppressed c desk
  unfolding idempotent_resume delegate mark_if_first_seen duplicate
  SeenIn-Suppressed c desk m = rw (Member-contains m, idempotent_resume, mark_if_first_seen) refl

  -- After a call for a flow, whatever its outcome and whatever calls follow it, a call for that flow
  -- with the same command id does nothing: it changes neither the flows nor the registry, and says
  -- that the command is complete.
  pub resume-once :
      (first again : Call) (between : List Call) (desk : After)
      → again.id ≡ first.id
      → again.envelope.command_id ≡ first.envelope.command_id
      → Suppressed again (run_calls (first ∷ between) desk)
  resume-once first again between desk same_flow same_command =
      SeenIn-Suppressed again (run_calls (first ∷ between) desk) (
        subst (λ k. Member k (run_calls (first ∷ between) desk).seen) (sym same_key)
          (run_calls-seen between
            (idempotent_resume e n first.id first.definition first.envelope first.before desk).0
            (resume-seen first desk).0))
    where
      same_key :
          seen_key again.id again.envelope.command_id ≡ seen_key first.id first.envelope.command_id
      same_key =
          ap (λ id. seen_key id again.envelope.command_id) same_flow
          ∙ ap (seen_key first.id) same_command
