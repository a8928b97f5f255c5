-- ===== src/Engine/External/Follows.antt =====
-- An external transition leads a flow along the edges of its definition.
use tramli.Prelude.{
  String, ◌==◌, ◌&&◌, eq_iff, ◌≡◌, refl, subst, ℕ, leb, Bool, true, false, Option, none, some, List,
  [], ◌∷◌, Member, Member-filter, Dict, arith,
}
use tramli.FlowError.{Thrown, invalid_transition}
use tramli.Context.{Value}
use tramli.Types.{
  GuardOutput, accepted, rejected, expired, Transition, TransitionGuard, is_external,
}
use tramli.FlowDefinition.{FlowDefinition, externals_from}
use tramli.FlowDefinition.Edges.{Edge, Leads}
use tramli.FlowInstance.{FlowInstance}
use tramli.FlowInstance.Follows.{Follows, complete-Follows, increment_guard_failure-Follows}
use tramli.Exec.Ensures.{
  Ensures, Keeps, Ensures-pure, Ensures-gets, Ensures-bind, Ensures-catch, Ensures-when,
  Ensures-given, Ensures-weaken,
}
use tramli.Engine.{Engine, Env, Act, GuardResult, raise_error}
use tramli.Engine.Frame.{
  Both, now-Keeps, update_context-Keeps, log_entry-Keeps, call-Keeps, update_flow-Ensures,
}
use tramli.Engine.Select.{Selection, selected, refused, select_external}
use tramli.Engine.Select.Choice.{select_external-Member}
use tramli.Engine.Steps.Frame.{run_processor-Keeps}
use tramli.Engine.Errors.Follows.{handle_error-Keeps}
use tramli.Engine.Chain.Follows.{current_state-Ensures, advance-Follows}
use tramli.Engine.External.{
  put_data, or_refuse, log_guard, recover_at, on_output, pass_guard, past_deadline, external_at,
  in_time, resume_state,
}

module _ {F : Type 0} (P : F → Type 0) (o : Env) where
  pub put_data-Keeps : (m : Option (Dict Value)) → Keeps (Both P o) (put_data {F = F} m)
  unfolding put_data
  put_data-Keeps m = update_context-Keeps P o _

  pub or_refuse-Ensures :
      {D : Type 0} (x : Selection D)
      → Ensures (Both P o) (or_refuse {F = F} x) (λ t r. Both P o r × (x ≡ selected t)) (Both P o)
  unfolding or_refuse
  or_refuse-Ensures (selected t) = Ensures-pure t (λ r h. (h, refl))
  or_refuse-Ensures (refused x) = record { at = λ r h. h }

pub log_guard-Keeps :
    {D F : Type 0} (P : FlowInstance D F → Type 0) (o : Env) (e : Engine) (state name : String)
    (result : GuardResult) (reason : Option String)
    → Keeps (Both P o) (log_guard e state name result reason)
unfolding log_guard
log_guard-Keeps P o e state name result reason = record {
  at = λ r h. (log_entry-Keeps P o _ _).at r h;
}

-- The transitions that an external event may take.
pub externals_from-Member :
    {D : Type 0} (d : FlowDefinition D) (s : String) {t : Transition D}
    → Member t (externals_from s d)
    → Member t d.transitions × (t.from ≡ s)
unfolding externals_from
externals_from-Member {D} d s {t} m =
    let (k, test) =
      Member-filter (λ (u : Transition D). u.from == s && is_external u.type) d.transitions m in
    (k, (eq_iff t.from s).0 (ground arith))

module _ (e : Engine) {D F : Type 0} (i : FlowInstance D F) (o : Env) (s : String)
    (led : Leads i.definition i.current_state s) where
  recover_at-Keeps :
      (backup : Dict Value) (x : Thrown) → Keeps (Both (Follows i) o) (recover_at e s backup x)
  unfolding recover_at
  recover_at-Keeps backup x =
      Ensures-bind (update_context-Keeps (Follows i) o _)
        λ _. Ensures-bind (handle_error-Keeps e i o s led _) λ _. Ensures-pure false (λ r h. h)

  on_output-Keeps :
      (max_retries : ℕ) (g : TransitionGuard) (t : Transition D) (output : GuardOutput)
      → Edge i.definition s t.to
      → Keeps (Both (Follows i) o) (on_output e max_retries g t s output)
  unfolding on_output
  on_output-Keeps max_retries g t (accepted extra) edge =
      Ensures-bind (log_guard-Keeps (Follows i) o e s g.name _ _) λ _.
        Ensures-bind (Ensures-gets {Q = λ _. Both (Follows i) o} _ (λ r h. h)) λ backup.
          Ensures-bind (put_data-Keeps (Follows i) o extra) λ _.
            Ensures-catch
              (Ensures-bind
                (Ensures-bind (run_processor-Keeps (Follows i) o e false t.processor)
                  λ _. advance-Follows e i o s t.to g.name led edge)
                λ _. Ensures-pure true (λ r h. h))
              (λ x. recover_at-Keeps backup x)
  on_output-Keeps max_retries g t (rejected reason) edge =
      Ensures-bind (log_guard-Keeps (Follows i) o e s g.name _ _) λ _.
        Ensures-bind
          (update_flow-Ensures (Follows i) o (Follows i) _ _
            (λ x f. increment_guard_failure-Follows x (some g.name) f))
          λ _. Ensures-bind (Ensures-gets {Q = λ _. Both (Follows i) o} _ (λ r h. h)) λ failures.
            Ensures-bind
              (Ensures-when (leb max_retries failures) (λ _. handle_error-Keeps e i o s led none)
                (λ r h. h))
              λ _. Ensures-pure false (λ r h. h)
  on_output-Keeps max_retries g t expired edge =
      Ensures-bind (log_guard-Keeps (Follows i) o e s g.name _ _) λ _.
        Ensures-bind
          (update_flow-Ensures (Follows i) o (Follows i) _ _ (λ x f. complete-Follows x _ f))
          λ _. Ensures-pure false (λ r h. h)

  pass_guard-Keeps :
      (max_retries : ℕ) (g : Option TransitionGuard) (t : Transition D)
      → Edge i.definition s t.to
      → Keeps (Both (Follows i) o) (pass_guard e max_retries g t s)
  unfolding pass_guard
  pass_guard-Keeps max_retries none t edge =
      Ensures-bind (advance-Follows e i o s t.to "external" led edge)
        λ _. Ensures-pure true (λ r h. h)
  pass_guard-Keeps max_retries (some g) t edge =
      Ensures-bind (call-Keeps (Follows i) o g.validate)
        λ output. on_output-Keeps max_retries g t output edge

  external_at-Ensures :
      (d : FlowDefinition D) (given : List String)
      → Ensures
          (Both (Follows i) o)
          (external_at e d given s)
          (λ t r. Both (Follows i) o r × (Member t d.transitions × (t.from ≡ s)))
          (Both (Follows i) o)
  unfolding external_at
  external_at-Ensures d given = chosen (externals_from s d) (λ t m. externals_from-Member d s m)
    where
      chosen :
          (xs : List (Transition D))
          → ((t : Transition D) → Member t xs → Member t d.transitions × (t.from ≡ s))
          → Ensures
              (Both (Follows i) o)
              (elim xs [
                | [] ↦ raise_error (invalid_transition s s)
                | x ∷ rest ↦ or_refuse (select_external (x ∷ rest) given s)
              ])
              (λ t r. Both (Follows i) o r × (Member t d.transitions × (t.from ≡ s)))
              (Both (Follows i) o)
      chosen [] k = record { at = λ r h. h }
      chosen (x ∷ rest) k =
          Ensures-weaken (λ r h. h)
            (λ t r (h, q). (h, k t (select_external-Member s (x ∷ rest) given q))) (λ r h. h)
            (or_refuse-Ensures (Follows i) o (select_external (x ∷ rest) given s))

  past_deadline-Keeps : (timeout : Option ℕ) → Keeps (Both (Follows i) o) (past_deadline e timeout)
  unfolding past_deadline
  past_deadline-Keeps none = Ensures-pure false (λ r h. h)
  past_deadline-Keeps (some timeout) = Ensures-bind (now-Keeps (Follows i) o) λ t.
      Ensures-bind (Ensures-gets {Q = λ _. Both (Follows i) o} _ (λ r h. h))
        λ entered. Ensures-pure _ (λ r h. h)

-- With the flow's own definition, and with any safe chain after the transition.
pub resume_state-Keeps :
    (e : Engine) {D F : Type 0} (d : FlowDefinition D) (given : List String)
    (chain : Act (FlowInstance D F) (Unit {0})) (i : FlowInstance D F) (o : Env)
    → d ≡ i.definition
    → Keeps (Both (Follows i) o) chain
    → Keeps (Both (Follows i) o) (resume_state e d given chain)
unfolding resume_state
resume_state-Keeps e {D} d given chain i o own safe = current_state-Ensures e i o λ s led.
    Ensures-bind (external_at-Ensures e i o s led d given) λ t.
      Ensures-given (λ r p. p.1)
        λ (m, q).
          Ensures-weaken (λ r p. p.0) (λ a r p. p) (λ r p. p)
            (Ensures-bind (past_deadline-Keeps e i o s led t.timeout) λ late.
              timed s led t (Edge.transition t (subst (λ c. Member t c.transitions) own m) q refl)
                late)
  where
    timed :
        (s : String)
        → Leads i.definition i.current_state s
        → (t : Transition D) → Edge i.definition s t.to
        → (late : Bool) → Keeps (Both (Follows i) o) (in_time e d t s chain late)
    timed s led t edge true =
        update_flow-Ensures (Follows i) o (Follows i) _ _ (λ x f. complete-Follows x _ f)
    timed s led t edge false =
        Ensures-bind (pass_guard-Keeps e i o s led d.max_guard_retries t.guard t edge)
          λ again. Ensures-when again (λ _. safe) (λ r h. h)
