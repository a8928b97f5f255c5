-- ===== src/Engine/Chain/SubFlows.antt =====
-- Sub-flows, and the chain at every nesting depth.
use tramli.Prelude.{
  String, ◌≡◌, refl, ℕ, zero, suc, true, false, Option, none, some, truthy-eq-some,
}
use tramli.FlowDefinition.{FlowDefinition}
use tramli.FlowDefinition.Edges.{Edge, Leads}
use tramli.FlowInstance.{FlowInstance}
use tramli.FlowInstance.Follows.{Follows, Follows-refl, set_active_sub_flow-Follows}
use tramli.Exec.{Outcome, done, raised}
use tramli.Exec.Ensures.{
  Ensures, Keeps, Post, Post-elim, Ensures-pure, Ensures-gets, Ensures-bind, Ensures-given,
  Ensures-weaken,
}
use tramli.Engine.{Engine, Env, Run, Act}
use tramli.Engine.Frame.{Both, now-Keeps, update_flow-Ensures}
use tramli.Engine.Errors.Follows.{handle_error-Keeps}
use tramli.Engine.Chain.{
  inside_cases, inside, no_sub_flow, leave_by, start_sub, leave_if_completed, execute_sub_flow,
  execute_auto_chain,
}
use tramli.Engine.Chain.Follows.{Safe, demand-Keeps, current_state-Ensures, advance-Follows}
use tramli.Engine.Chain.Rounds.{SafeSub, auto_loop-Keeps}

module _ (e : Engine) {D F : Type 0} (i : FlowInstance (FlowDefinition D) (FlowInstance D F))
    (o : Env) where
  inside_cases-Post :
      {A : Type 0} (P : FlowInstance D F → Type 0)
      (r : Run (FlowInstance (FlowDefinition D) (FlowInstance D F)))
      (m : Outcome (Run (FlowInstance D F)) A)
      → Follows i r.flow
      → Post (λ _. Both P o) (Both P o) m
      → Post (λ _. Both (Follows i) o) (Both (Follows i) o) (inside_cases r m)
  unfolding inside_cases
  inside_cases-Post P r (done a s) f (p, h) = (set_active_sub_flow-Follows r.flow _ f, h)
  inside_cases-Post P r (raised x s) f (p, h) = (set_active_sub_flow-Follows r.flow _ f, h)

  pub inside-Keeps :
      {A : Type 0} {m : Act (FlowInstance D F) A}
      → ((x : FlowInstance D F) → Keeps (Both (Follows x) o) m)
      → Keeps (Both (Follows i) o) (inside m)
  unfolding inside
  inside-Keeps {m} k = record {
    at = λ r (f, h).
        Post-elim (λ _. Both (Follows i) o) (Both (Follows i) o) r.flow.active_sub_flow _ _
          (λ _. (f, h))
          (λ sub _.
            inside_cases-Post (Follows sub) r _ f
              ((k sub).at (record { flow = sub; env = r.env }) (Follows-refl sub, h)));
  }

  -- For an action on the sub-flow of which only the environment matters.
  pub inside_any-Keeps :
      {A : Type 0} {m : Act (FlowInstance D F) A}
      → Keeps (Both (λ _. Unit {0}) o) m
      → Keeps (Both (Follows i) o) (inside m)
  unfolding inside
  inside_any-Keeps {m} k = record {
    at = λ r (f, h).
        Post-elim (λ _. Both (Follows i) o) (Both (Follows i) o) r.flow.active_sub_flow _ _
          (λ _. (f, h))
          (λ sub _.
            inside_cases-Post (λ _. Unit {0}) r _ f
              (k.at (record { flow = sub; env = r.env }) (tt, h)));
  }

  pub leave_by-Keeps :
      (chain : Act (FlowInstance D F) (Unit {0})) (name exit : String) (target : Option String)
      (s : String)
      → Leads i.definition i.current_state s
      → ((u : String) → target ≡ some u → Edge i.definition s u)
      → Keeps (Both (Follows i) o) (leave_by e chain name exit target)
  unfolding leave_by
  leave_by-Keeps chain name exit none s led edge =
      current_state-Ensures e i o λ from l. handle_error-Keeps e i o from l none
  leave_by-Keeps chain name exit (some target) s led edge =
      advance-Follows e i o s target _ led (edge target refl)

module _ (e : Engine) {D F : Type 0} (chain : Act (FlowInstance D F) (Unit {0}))
    (safe : Safe chain) where
  execute_sub_flow-Keeps : SafeSub (execute_sub_flow e chain)
  unfolding execute_sub_flow start_sub leave_if_completed
  execute_sub_flow-Keeps i o s t led m q =
      Ensures-bind (plain (demand-Keeps (Follows i) o "initialState" t.sub_flow_definition)) λ d.
        Ensures-bind (started d) λ _. Ensures-bind (inside-Keeps e i o (λ x. safe x o)) λ _.
          Ensures-bind
            (inside-Keeps e i o (λ x. Ensures-gets {Q = λ _. Both (Follows x) o} _ (λ r h. h)))
            λ exit. left d.name exit
    where
      plain :
          {A : Type 0} {act : Act (FlowInstance (FlowDefinition D) (FlowInstance D F)) A}
          {R : A → Type 0}
          → Ensures
              (Both (Follows i) o)
              act
              (λ a r. Both (Follows i) o r × R a)
              (Both (Follows i) o)
          → Keeps (Both (Follows i) o) act
      plain k = Ensures-weaken (λ r h. h) (λ a r p. p.0) (λ r h. h) k

      started : (d : FlowDefinition D) → Keeps (Both (Follows i) o) (start_sub e chain d)
      started d = Ensures-bind (now-Keeps (Follows i) o) λ entered.
          Ensures-bind (now-Keeps (Follows i) o) λ created.
            update_flow-Ensures (Follows i) o (Follows i) _ _
              (λ x f. set_active_sub_flow-Follows x _ f)

      left :
          (name : String) (exit : Option String)
          → Keeps (Both (Follows i) o) (leave_if_completed e chain name t.exit_mappings exit)
      left name none = Ensures-pure false (λ r h. h)
      left name (some exit) =
          Ensures-bind
            (update_flow-Ensures (Follows i) o (Follows i) _ _
              (λ x f. set_active_sub_flow-Follows x none f))
            λ _. Ensures-bind (demand-Keeps (Follows i) o "get" t.exit_mappings) λ mappings.
              Ensures-given (λ r p. p.1)
                λ has.
                  Ensures-weaken (λ r p. p.0) (λ a r p. p) (λ r p. p)
                    (Ensures-bind
                      (leave_by-Keeps e i o chain name exit _ s led
                        (λ u k. Edge.exit t mappings exit m q has (truthy-eq-some _ k)))
                      λ _. Ensures-pure true (λ r h. h))

no_sub_flow-Keeps : (e : Engine) → SafeSub (no_sub_flow e)
unfolding no_sub_flow
no_sub_flow-Keeps e i o s t led m q =
    Ensures-bind (demand-Keeps (Follows i) o "initialState" t.sub_flow_definition) λ d. absurd d

-- At every nesting depth the chain leads a flow along its edges.
pub execute_auto_chain-Safe : (e : Engine) (n : ℕ) → Safe (execute_auto_chain e n)
unfolding execute_auto_chain
execute_auto_chain-Safe e zero i o = auto_loop-Keeps e (no_sub_flow e) (no_sub_flow-Keeps e) i o _
execute_auto_chain-Safe e (suc n) i o =
    auto_loop-Keeps e (execute_sub_flow e (execute_auto_chain e n))
      (execute_sub_flow-Keeps e (execute_auto_chain e n) (execute_auto_chain-Safe e n)) i o _
