-- ===== src/FlowInstance/Follows.antt =====
-- What the engine may make of a flow: its identity stays, and its state moves along the edges of its
-- definition.
use tramli.Prelude.{String, eq_iff, ◌≡◌, refl, sym, subst, ℕ, Option, none, some, arith}
use tramli.FlowDefinition.Edges.{Edge, Leads, here, then}
use tramli.FlowInstance.{
  FlowInstance, transition_to, complete, set_active_sub_flow, set_last_error,
  increment_guard_failure,
}

pub record Follows {D F : Type 0} (i x : FlowInstance D F) : Type 0 where
  pub definition : x.definition ≡ i.definition
  pub id : x.id ≡ i.id
  pub session_id : x.session_id ≡ i.session_id
  pub expires_at : x.expires_at ≡ i.expires_at
  pub led : Leads i.definition i.current_state x.current_state

module _ {D F : Type 0} where
  pub transition_to-current_state :
      (s : String) (t : ℕ) (x : FlowInstance D F) → (transition_to s t x).current_state ≡ s
  unfolding transition_to
  transition_to-current_state s t x = ground (arith, eq_iff x.current_state s)

  pub transition_to-definition :
      (s : String) (t : ℕ) (x : FlowInstance D F) → (transition_to s t x).definition ≡ x.definition
  unfolding transition_to
  transition_to-definition s t x = ground arith

  pub transition_to-exit_state :
      (s : String) (t : ℕ) (x : FlowInstance D F) → (transition_to s t x).exit_state ≡ x.exit_state
  unfolding transition_to
  transition_to-exit_state s t x = ground arith

  pub transition_to-id :
      (s : String) (t : ℕ) (x : FlowInstance D F) → (transition_to s t x).id ≡ x.id
  unfolding transition_to
  transition_to-id s t x = ground arith

  pub Follows-refl : (i : FlowInstance D F) → Follows i i
  Follows-refl i = record {
    definition = refl;
    id = refl;
    session_id = refl;
    expires_at = refl;
    led = here;
  }

  -- The edge may start in a state that the flow was led to before.
  pub transition_to-Follows :
      {i : FlowInstance D F} (x : FlowInstance D F) (s to : String) (t : ℕ)
      → Leads i.definition i.current_state s
      → Edge i.definition s to
      → Follows i x
      → Follows i (transition_to to t x)
  transition_to-Follows {i} x s to t l edge f = record {
    definition = unfold transition_to in ground arith;
    id = unfold transition_to in ground arith;
    session_id = unfold transition_to in ground arith;
    expires_at = unfold transition_to in ground arith;
    led =
        subst (Leads i.definition i.current_state) (sym (transition_to-current_state to t x))
          (then l edge);
  }

  pub complete-Follows :
      {i : FlowInstance D F} (x : FlowInstance D F) (s : String)
      → Follows i x
      → Follows i (complete s x)
  unfolding complete
  complete-Follows x s f = record {
    definition = f.definition;
    id = f.id;
    session_id = f.session_id;
    expires_at = f.expires_at;
    led = f.led;
  }

  pub set_active_sub_flow-Follows :
      {i : FlowInstance D F} (x : FlowInstance D F) (sub : Option F)
      → Follows i x
      → Follows i (set_active_sub_flow sub x)
  unfolding set_active_sub_flow
  set_active_sub_flow-Follows x sub f = record {
    definition = f.definition;
    id = f.id;
    session_id = f.session_id;
    expires_at = f.expires_at;
    led = f.led;
  }

  pub set_last_error-Follows :
      {i : FlowInstance D F} (x : FlowInstance D F) (e : Option String)
      → Follows i x
      → Follows i (set_last_error e x)
  unfolding set_last_error
  set_last_error-Follows x e f = record {
    definition = f.definition;
    id = f.id;
    session_id = f.session_id;
    expires_at = f.expires_at;
    led = f.led;
  }

  pub increment_guard_failure-Follows :
      {i : FlowInstance D F} (x : FlowInstance D F) (name : Option String)
      → Follows i x
      → Follows i (increment_guard_failure name x)
  unfolding increment_guard_failure
  increment_guard_failure-Follows x none f = record {
    definition = f.definition;
    id = f.id;
    session_id = f.session_id;
    expires_at = f.expires_at;
    led = f.led;
  }
  increment_guard_failure-Follows x (some name) f = record {
    definition = f.definition;
    id = f.id;
    session_id = f.session_id;
    expires_at = f.expires_at;
    led = f.led;
  }
