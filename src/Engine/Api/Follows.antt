-- ===== src/Engine/Api/Follows.antt =====
-- The engine's public operations as walks in the graph of the definition.
use tramli.Prelude.{
  String, ◌≡◌, ◌+◌, ℕ, Option, some, List, Dict, lookup, lookup-insert_self, Extends, truthy,
}
use tramli.Context.{Value}
use tramli.FlowDefinition.{FlowDefinition, SubDefinition}
use tramli.FlowDefinition.Edges.{Leads}
use tramli.FlowInstance.{FlowInstance, SubFlow, new}
use tramli.FlowInstance.Follows.{Follows, Follows-refl}
use tramli.FlowStore.{Session, load_for_update, create, save, TransitionRecord}
use tramli.Exec.{Outcome, done, raised, final}
use tramli.Exec.Ensures.{Post}
use tramli.Engine.{Engine, Run}
use tramli.Engine.Frame.{Both, EnvFollows-refl}
use tramli.Engine.Chain.SubFlows.{execute_auto_chain-Safe}
use tramli.Engine.Resume.Follows.{resume_loaded-Keeps}
use tramli.Engine.Api.{
  World, enter, settle, settle_outcome, started, start_flow, resume_and_execute,
}

-- What the store holds under an identifier in the end, whether a call returned or threw: a flow of
-- the definition `d` in a state that `s` leads to. The log of transitions only grew.
pub record Walked {D F : Type 0} (d : FlowDefinition D) (s id : String)
    (log : List TransitionRecord) (w : World D F) : Type 0 where
  pub session : Session D F
  pub held : lookup id w.store.flows ≡ some session
  pub own : session.flow.id ≡ id
  pub definition : session.flow.definition ≡ d
  pub led : Leads d s session.flow.current_state
  pub logged : Extends log w.store.transition_log

module _ {D F : Type 0} (i : FlowInstance D F) (o : Run (FlowInstance D F)) (w : World D F) where
  settle-Walked :
      (r : Run (FlowInstance D F))
      → Both (Follows i) o.env r
      → Walked i.definition i.current_state i.id o.env.transition_log (settle w r)
  unfolding settle save
  settle-Walked r (f, h) = record {
    session = record { flow = r.flow; context = r.env.context };
    held = rw f.id (lookup-insert_self i.id _ w.store.flows);
    own = f.id;
    definition = f.definition;
    led = f.led;
    logged = h.logged;
  }

  settle_outcome-Walked :
      (m : Outcome (Run (FlowInstance D F)) (Unit {0}))
      → Post (λ _. Both (Follows i) o.env) (Both (Follows i) o.env) m
      → Walked i.definition i.current_state i.id o.env.transition_log (final (settle_outcome w m))
  unfolding settle_outcome
  settle_outcome-Walked (done _ r) h = settle-Walked r h
  settle_outcome-Walked (raised x r) h = settle-Walked r h

module _ (e : Engine) (n : ℕ) (id : String) (d : FlowDefinition (SubDefinition n)) where
  -- Resuming a stored flow with its own definition, for any data, clock and user code, and also
  -- where the call throws, leaves in the store that flow in a state that its old state leads to, and
  -- only extends the log.
  pub resume-Walked :
      (extra : Option (Dict Value)) (w : World (SubDefinition n) (SubFlow n))
      (x : Session (SubDefinition n) (SubFlow n))
      → load_for_update id w.store ≡ some x
      → d ≡ x.flow.definition
      → Walked x.flow.definition x.flow.current_state x.flow.id w.store.transition_log
          (final (resume_and_execute e n id d extra w))
  unfolding resume_and_execute enter
  resume-Walked extra w x loaded own =
      rw (loaded, resume_and_execute)
        (settle_outcome-Walked x.flow (enter x w) w _ (
          (resume_loaded-Keeps e n d extra x.flow (enter x w).env own).at (enter x w)
            (Follows-refl x.flow, EnvFollows-refl _)))

  -- Starting a flow, for any data, clock and user code, and also where the call throws, leaves in the
  -- store a flow of the definition in a state that the initial state leads to, and only extends the
  -- log.
  pub start-Walked :
      (session : String) (extra : Dict Value) (w : World (SubDefinition n) (SubFlow n))
      {initial : String}
      → truthy d.initial_state ≡ some initial
      → Walked d initial id w.store.transition_log (final (start_flow e n id d session extra w))
  unfolding start_flow enter new create
  start-Walked session extra w {initial} found =
      let x = started e n id session d extra initial w in
      let c : World (SubDefinition n) (SubFlow n) = record w {
        store = create x w.store;
        moment = w.moment + 4;
      } in
      rw (found, start_flow)
        (settle_outcome-Walked x.flow (enter x c) c _ (
          (execute_auto_chain-Safe e n x.flow (enter x c).env).at (enter x c)
            (Follows-refl x.flow, EnvFollows-refl _)))
