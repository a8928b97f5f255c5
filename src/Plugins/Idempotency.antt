-- ===== src/Plugins/Idempotency.antt =====
-- Suppressing repeated commands (lang/ts-plugins/src/idempotency).
pub mod Once
use tramli.Prelude.{
  String, ◌<>◌, ℕ, Bool, true, false, if◌then◌else◌, Option, none, some, List, [], ◌∷◌, contains,
  add, Dict,
}
use tramli.FlowError.{error, plain_error}
use tramli.Context.{Value}
use tramli.FlowDefinition.{FlowDefinition, SubDefinition}
use tramli.FlowInstance.{FlowInstance, SubFlow}
use tramli.Engine.{Engine}
use tramli.Engine.Api.{World}
use tramli.Plugins.Resume.{RichResumeStatus, RichResumeResult, rich_resume}

pub record CommandEnvelope : Type 0 where
  pub command_id : String
  pub external_data : Dict Value

unfoldable pub seen_key : String → String → String
seen_key flow_id command_id = flow_id <> "::" <> command_id

-- `InMemoryIdempotencyRegistry.markIfFirstSeen`, over the set of keys that it has seen.
unfoldable pub mark_if_first_seen : String → String → List String → Bool × List String
mark_if_first_seen flow_id command_id seen =
    if contains (seen_key flow_id command_id) seen
    then (false, seen)
    else (true, add (seen_key flow_id command_id) seen)

-- What a call sees and leaves behind.
pub record Desk (D F : Type 0) : Type 0 where
  pub seen : List String
  pub world : World D F

module _ (e : Engine) (n : ℕ) where
  abbrev Flow : Type 0
  Flow = FlowInstance (SubDefinition n) (SubFlow n)

  duplicate : String → RichResumeResult Flow
  duplicate command_id = record {
    status = RichResumeStatus.already_complete;
    flow = none;
    error = some (error (plain_error ("duplicate commandId " <> command_id)));
  }

  delegate :
      String
      → FlowDefinition (SubDefinition n)
      → CommandEnvelope
      → String
      → Bool × List String
      → World (SubDefinition n) (SubFlow n)
      → Desk (SubDefinition n) (SubFlow n) × RichResumeResult Flow
  unfolding duplicate
  delegate id d envelope before (false, seen) w =
      (record { seen = seen; world = w }, duplicate envelope.command_id)
  delegate id d envelope before (true, seen) w =
      let (after, result) = rich_resume e n id d envelope.external_data before w in
      (record { seen = seen; world = after }, result)

  unfoldable pub idempotent_resume :
      String
      → FlowDefinition (SubDefinition n)
      → CommandEnvelope
      → String
      → Desk (SubDefinition n) (SubFlow n)
      → Desk (SubDefinition n) (SubFlow n) × RichResumeResult Flow
  unfolding delegate
  idempotent_resume id d envelope before desk =
      delegate id d envelope before (mark_if_first_seen id envelope.command_id desk.seen) desk.world
