-- ===== src/Engine/Chain/Follows.antt =====
-- The automatic chain leads a flow along the edges of its definition, whatever the user's code does
-- and wherever it throws.
use tramli.Prelude.{
  String, ◌==◌, eq_iff, ◌≡◌, refl, sym, subst, ap, Bool, true, false, Option, none, some,
  truthy-eq-some, List, Member, Member-filter, find-eq-some, Dict, lookup, ◌∙◌,
}
use tramli.FlowError.{Thrown}
use tramli.Context.{Value}
use tramli.Types.{Transition, StateConfig, is_auto}
use tramli.FlowDefinition.{FlowDefinition, transitions_from}
use tramli.FlowDefinition.Edges.{Edge, Leads}
use tramli.FlowInstance.{FlowInstance}
use tramli.FlowInstance.Follows.{Follows, transition_to-Follows, complete-Follows}
use tramli.Exec.{◌>>=◌}
use tramli.Exec.Ensures.{
  Ensures, Keeps, Ensures-pure, Ensures-gets, Ensures-bind, Ensures-if, Ensures-given,
  Ensures-catch, Ensures-weaken,
}
use tramli.Engine.{Engine, Env, Act}
use tramli.Engine.Frame.{Both, update_context-Keeps, call-Keeps, update_flow-Ensures, gets-Ensures}
use tramli.Engine.Steps.{current_state, advance}
use tramli.Engine.Steps.Frame.{run_processor-Keeps, advance-Ensures}
use tramli.Engine.Errors.Follows.{handle_error-Keeps}
use tramli.Engine.Chain.{
  sub_flow_in, auto_or_branch_in, demand, auto_step, unknown_branch, branch_step, chain_step,
  recover, try_step, auto_or_stop, sub_or_auto, in_state,
}

-- An action that leads every flow along its edges.
abbrev pub Safe : {D F A : Type 0} → Act (FlowInstance D F) A → Type 0
Safe {D} {F} m = (i : FlowInstance D F) (o : Env) → Keeps (Both (Follows i) o) m

pub demand-Keeps :
    {F A : Type 0} (P : F → Type 0) (o : Env) (name : String) (v : Option A)
    → Ensures (Both P o) (demand name v) (λ a r. Both P o r × (v ≡ some a)) (Both P o)
unfolding demand
demand-Keeps P o name none = record { at = λ r h. h }
demand-Keeps P o name (some a) = record { at = λ r h. (h, refl) }

module _ (e : Engine) {D F : Type 0} (i : FlowInstance D F) (o : Env) where
  -- The current state, as one that the flow was led to.
  pub current_state-Ensures :
      {A : Type 0} {f : String → Act (FlowInstance D F) A}
      → ((s : String) → Leads i.definition i.current_state s → Keeps (Both (Follows i) o) (f s))
      → Keeps (Both (Follows i) o) (current_state >>= f)
  unfolding current_state
  current_state-Ensures k =
      Ensures-bind (gets-Ensures (Follows i) o (Both (Follows i) o) (λ x. x.current_state)) λ s.
        Ensures-given (λ r ((f, e), h). subst (Leads i.definition i.current_state) e f.led)
          (λ led. Ensures-weaken (λ r ((f, e), h). (f, h)) (λ a r p. p) (λ r p. p) (k s led))

  pub advance-Follows :
      (s to trigger : String)
      → Leads i.definition i.current_state s
      → Edge i.definition s to
      → Keeps (Both (Follows i) o) (advance e to trigger)
  advance-Follows s to trigger led edge =
      advance-Ensures (Follows i) (Follows i) o e to trigger (λ x f. f)
        (λ x t f. transition_to-Follows x s to t led edge f)

module _ (e : Engine) {D F : Type 0} (i : FlowInstance D F) (o : Env) (s : String)
    (led : Leads i.definition i.current_state s) where
  auto_step-Keeps :
      (t : Transition D) → Edge i.definition s t.to → Keeps (Both (Follows i) o) (auto_step e t)
  unfolding auto_step
  auto_step-Keeps t edge =
      Ensures-bind (run_processor-Keeps (Follows i) o e true t.processor)
        λ _. advance-Follows e i o s t.to _ led edge

  unknown_branch-Ensures :
      (name label : String) (target : Option String)
      → Ensures
          (Both (Follows i) o)
          (unknown_branch e name label target)
          (λ a r. Both (Follows i) o r × (target ≡ some a))
          (Both (Follows i) o)
  unfolding unknown_branch
  unknown_branch-Ensures name label none = record { at = λ r h. h }
  unknown_branch-Ensures name label (some target) = Ensures-pure target (λ r h. (h, refl))

  branch_step-Keeps :
      (t : Transition D) (ts : List (Transition D))
      → ((label u : String) → lookup label t.branch_targets ≡ some u → Edge i.definition s u)
      → Keeps (Both (Follows i) o) (branch_step e t ts)
  unfolding branch_step
  branch_step-Keeps t ts edge =
      Ensures-bind
        (Ensures-weaken (λ r p. p) (λ a r p. p.0) (λ r p. p)
          (demand-Keeps (Follows i) o "branch" t.branch))
        λ branch. Ensures-bind (call-Keeps (Follows i) o branch.decide) λ label.
          Ensures-bind (unknown_branch-Ensures branch.name label _) λ target.
            Ensures-given (λ r (h, k). edge label target (truthy-eq-some _ k))
              λ to.
                Ensures-weaken (λ r p. p.0) (λ a r p. p) (λ r p. p)
                  (Ensures-bind (run_processor-Keeps (Follows i) o e false _)
                    λ _. advance-Follows e i o s target _ led to)

  chain_step-Keeps :
      (t : Transition D) (ts : List (Transition D))
      → Member t i.definition.transitions
      → t.from ≡ s
      → Keeps (Both (Follows i) o) (chain_step e t ts)
  unfolding chain_step
  chain_step-Keeps t ts m q =
      Ensures-if (is_auto t.type) (λ _. auto_step-Keeps t (Edge.transition t m q refl))
        (λ _. branch_step-Keeps t ts (λ label u k. Edge.branch t label m q k))

  recover-Keeps :
      (backup : Dict Value) (x : Thrown) → Keeps (Both (Follows i) o) (recover e backup x)
  unfolding recover
  recover-Keeps backup x = Ensures-bind (update_context-Keeps (Follows i) o _) λ _.
      current_state-Ensures e i o λ from l.
        Ensures-bind (handle_error-Keeps e i o from l _) λ _. Ensures-pure false (λ r h. h)

  try_step-Keeps :
      (t : Transition D) (ts : List (Transition D))
      → Member t i.definition.transitions
      → t.from ≡ s
      → Keeps (Both (Follows i) o) (try_step e t ts)
  unfolding try_step
  try_step-Keeps t ts m q =
      Ensures-bind (Ensures-gets {Q = λ _. Both (Follows i) o} _ (λ r h. h)) λ backup.
        Ensures-catch (Ensures-bind (chain_step-Keeps t ts m q) λ _. Ensures-pure true (λ r h. h))
          (λ x. recover-Keeps backup x)

  -- The transitions of the current state.
  abbrev Local : List (Transition D) → Type 0
  Local ts = (t : Transition D) → Member t ts → Member t i.definition.transitions × (t.from ≡ s)

  module _ (sub : Transition D → Act (FlowInstance D F) Bool)
      (safe : (t : Transition D)
        → Member t i.definition.transitions
        → t.from ≡ s
        → Keeps (Both (Follows i) o) (sub t)) where
    auto_or_stop-Keeps :
        (t : Option (Transition D)) (ts : List (Transition D))
        → ((u : Transition D) → t ≡ some u → Member u i.definition.transitions × (u.from ≡ s))
        → Keeps (Both (Follows i) o) (auto_or_stop e t ts)
    unfolding auto_or_stop
    auto_or_stop-Keeps none ts k = Ensures-pure false (λ r h. h)
    auto_or_stop-Keeps (some t) ts k = try_step-Keeps t ts (k t refl).0 (k t refl).1

    sub_or_auto-Keeps :
        (t : Option (Transition D)) (ts : List (Transition D))
        → Local ts
        → ((u : Transition D) → t ≡ some u → Member u i.definition.transitions × (u.from ≡ s))
        → Keeps (Both (Follows i) o) (sub_or_auto e sub t ts)
    unfolding sub_or_auto auto_or_branch_in
    sub_or_auto-Keeps none ts local k =
        auto_or_stop-Keeps _ ts (λ u q. local u (find-eq-some _ ts q).0)
    sub_or_auto-Keeps (some t) ts local k = safe t (k t refl).0 (k t refl).1

    pub in_state-Keeps : (cfg : StateConfig) → Keeps (Both (Follows i) o) (in_state e sub s cfg)
    unfolding in_state sub_flow_in
    in_state-Keeps cfg =
        Ensures-if cfg.terminal
          (λ _.
            Ensures-bind
              (update_flow-Ensures (Follows i) o (Follows i) _ _ (λ x f. complete-Follows x s f))
              λ _. Ensures-pure false (λ r h. h))
          (λ _.
            Ensures-bind
              (gets-Ensures (Follows i) o (Both (Follows i) o)
                (λ x. transitions_from s x.definition))
              λ ts.
                Ensures-given (λ r ((f, q), h). local ts _ f.definition q)
                  λ l.
                    Ensures-weaken (λ r ((f, q), h). (f, h)) (λ a r p. p) (λ r p. p)
                      (sub_or_auto-Keeps _ ts l (λ u q. l u (find-eq-some _ ts q).0)))
      where
        local :
            (ts : List (Transition D)) (d : FlowDefinition D)
            → d ≡ i.definition
            → transitions_from s d ≡ ts
            → Local ts
        local ts d same q t m =
            let (k, test) =
              Member-filter (λ (u : Transition D). u.from == s) i.definition.transitions
                (subst (Member t)
                  (sym q ∙ ap (λ c. transitions_from s c) same ∙ unfold transitions_from in refl)
                  m) in
            (k, (eq_iff t.from s).0 test)
