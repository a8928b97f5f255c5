-- ===== src/FlowInstance.antt =====
-- A running flow (lang/ts/src/flow-instance.ts). `F` is the type of the flows that may be active
-- inside it. A flow and its sub-flows share one context object, which is therefore no field here: it
-- stands beside the outermost flow. Each `new Date()` is an argument.
pub mod Queries
pub mod Follows
use tramli.Prelude.{
  String, ◌==◌, ℕ, zero, suc, ◌+◌, Bool, if◌then◌else◌, Option, none, some, is_some, get_or, [],
  Dict, lookup, insert,
}
use tramli.FlowDefinition.{FlowDefinition, SubDefinition}

pub record FlowInstance (D F : Type 0) : Type 0 where
  pub id : String
  pub session_id : String
  pub definition : FlowDefinition D
  pub current_state : String
  pub guard_failure_count : ℕ
  pub guard_failure_counts : Dict ℕ
  pub version : ℕ
  pub created_at : ℕ
  pub expires_at : ℕ
  pub exit_state : Option String
  pub active_sub_flow : Option F
  pub last_error : Option String
  pub state_entered_at : ℕ

-- The flows that may be active inside one of nesting depth `n`.
abbrev pub SubFlow : ℕ → Type 0
SubFlow zero = ⊥
SubFlow (suc n) = FlowInstance (SubDefinition n) (SubFlow n)

module _ {D F : Type 0} where
  -- `entered` and `created` are the two readings of the clock, in their order.
  unfoldable pub new : String → String → FlowDefinition D → String → ℕ → ℕ → ℕ → FlowInstance D F
  new id session_id definition current_state expires_at entered created = record {
    id = id;
    session_id = session_id;
    definition = definition;
    current_state = current_state;
    guard_failure_count = 0;
    guard_failure_counts = [];
    version = 0;
    created_at = created;
    expires_at = expires_at;
    exit_state = none;
    active_sub_flow = none;
    last_error = none;
    state_entered_at = entered;
  }

  unfoldable pub restore :
      String
      → String
      → FlowDefinition D
      → String
      → ℕ
      → ℕ
      → ℕ
      → ℕ
      → Option String
      → ℕ
      → FlowInstance D F
  restore id session_id definition current_state created expires_at failures version exit now =
      record {
        id = id;
        session_id = session_id;
        definition = definition;
        current_state = current_state;
        guard_failure_count = failures;
        guard_failure_counts = [];
        version = version;
        created_at = created;
        expires_at = expires_at;
        exit_state = exit;
        active_sub_flow = none;
        last_error = none;
        state_entered_at = now;
      }

  unfoldable pub guard_failure_count_for : String → FlowInstance D F → ℕ
  guard_failure_count_for name f = get_or 0 (lookup name f.guard_failure_counts)

  unfoldable pub is_completed : FlowInstance D F → Bool
  is_completed f = is_some f.exit_state

  -- The counts of failures are those of the current state: a change of state clears them.
  unfoldable pub transition_to : String → ℕ → FlowInstance D F → FlowInstance D F
  transition_to state now f =
      if f.current_state == state then record f { state_entered_at = now } else record f {
        current_state = state;
        state_entered_at = now;
        guard_failure_count = 0;
        guard_failure_counts = [];
      }

  -- A name that is absent or empty is counted in the total only.
  unfoldable pub increment_guard_failure : Option String → FlowInstance D F → FlowInstance D F
  unfolding guard_failure_count_for
  increment_guard_failure none f = record f { guard_failure_count = f.guard_failure_count + 1 }
  increment_guard_failure (some name) f =
      let counts = insert name (guard_failure_count_for name f + 1) f.guard_failure_counts in
      record f {
        guard_failure_count = f.guard_failure_count + 1;
        guard_failure_counts = if name == "" then f.guard_failure_counts else counts;
      }

  unfoldable pub complete : String → FlowInstance D F → FlowInstance D F
  complete exit f = record f { exit_state = some exit }

  unfoldable pub set_version : ℕ → FlowInstance D F → FlowInstance D F
  set_version v f = record f { version = v }

  unfoldable pub set_active_sub_flow : Option F → FlowInstance D F → FlowInstance D F
  set_active_sub_flow sub f = record f { active_sub_flow = sub }

  unfoldable pub set_last_error : Option String → FlowInstance D F → FlowInstance D F
  set_last_error e f = record f { last_error = e }

  unfoldable pub with_version : ℕ → ℕ → FlowInstance D F → FlowInstance D F
  unfolding restore set_active_sub_flow
  with_version v now f = set_active_sub_flow f.active_sub_flow (
      restore f.id f.session_id f.definition f.current_state f.created_at f.expires_at
        f.guard_failure_count v f.exit_state now)
