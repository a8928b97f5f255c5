-- ===== src/Engine/SubResume/Follows.antt =====
-- An external event for the active sub-flow leads the parent along the edges of its definition.
use tramli.FlowError.{flow_error}
use tramli.Engine.External.{or_refuse}
use tramli.Prelude.{
  ◌<>◌, String, ◌==◌, eq_iff, ◌≡◌, refl, subst, leb, true, false, Option, none, some,
  truthy-eq-some, find-eq-some, List, [], ◌∷◌, Member, Member-filter, Dict,
}
use tramli.Types.{GuardOutput, accepted, rejected, expired, Transition, TransitionGuard}
use tramli.FlowDefinition.{FlowDefinition, transitions_from, externals_from}
use tramli.FlowDefinition.Edges.{Edge, Leads}
use tramli.FlowInstance.{FlowInstance}
use tramli.FlowInstance.Follows.{Follows, complete-Follows, set_active_sub_flow-Follows}
use tramli.Exec.{gets}
use tramli.Exec.Ensures.{
  Keeps, Ensures-pure, Ensures-gets, Ensures-bind, Ensures-when, Ensures-weaken,
}
use tramli.Engine.{Engine, Env, Act, Run, update_flow, raise_error}
use tramli.Engine.Frame.{Both, call-Keeps, update_flow-Ensures}
use tramli.Engine.Select.{select_external}
use tramli.Engine.Steps.{current_state, move_to}
use tramli.Engine.Steps.Frame.{record_step-Keeps, log_transition-Keeps, move_to-Ensures}
use tramli.Engine.Chain.{sub_flow_in, inside}
use tramli.Engine.Chain.Follows.{Safe, current_state-Ensures, advance-Follows}
use tramli.Engine.Chain.SubFlows.{inside-Keeps, inside_any-Keeps, leave_by-Keeps}
use tramli.Engine.External.Follows.{put_data-Keeps, or_refuse-Ensures, log_guard-Keeps}
use tramli.Engine.SubResume.{
  exits_at, target_in, sub_external, sub_accepted, sub_exhausted, sub_rejected, sub_output,
  sub_guard, follow_exit, sub_completed, resume_sub_flow,
}

abbrev Parent : Type 0 → Type 0 → Type 0
Parent D F = FlowInstance (FlowDefinition D) (FlowInstance D F)

-- A target that the exits of a state name is an edge.
exits_at-Edge :
    (e : Engine) {D F : Type 0} (chain : Act (FlowInstance D F) (Unit {0}))
    (d : FlowDefinition (FlowDefinition D)) (s exit u : String)
    → target_in e chain (exits_at e chain d s) exit ≡ some u
    → Edge d s u
unfolding exits_at target_in transitions_from sub_flow_in
exits_at-Edge e {D} chain d s exit u h = by_transition (sub_flow_in (transitions_from s d)) refl h
  where
    by_mappings :
        (t : Transition (FlowDefinition D))
        → Member t d.transitions
        → t.from ≡ s
        → (m : Option (Dict String)) → t.exit_mappings ≡ m
        → target_in e chain m exit ≡ some u
        → Edge d s u
    by_mappings t k q none _ h = cc
    by_mappings t k q (some m) has h = Edge.exit t m exit k q has (truthy-eq-some _ h)

    by_transition :
        (t : Option (Transition (FlowDefinition D)))
        → sub_flow_in (transitions_from s d) ≡ t
        → target_in e chain (elim t [ none ↦ none | some v ↦ v.exit_mappings ]) exit ≡ some u
        → Edge d s u
    by_transition none found h = cc
    by_transition (some t) found h =
        let (m, _) = find-eq-some _ (transitions_from s d) found in
        let (k, test) =
          Member-filter (λ (v : Transition (FlowDefinition D)). v.from == s) d.transitions m in
        by_mappings t k ((eq_iff t.from s).0 test) t.exit_mappings refl h

module _ (e : Engine) {D F : Type 0} (chain : Act (FlowInstance D F) (Unit {0})) (safe : Safe chain)
    (i : Parent D F) (o : Env) where
  sub_flow-Keeps :
      (f : FlowInstance D F → FlowInstance D F)
      → Keeps (Both (Follows i) o) (inside (update_flow f))
  sub_flow-Keeps f =
      inside_any-Keeps e i o (update_flow-Ensures (λ _. Unit {0}) o (λ _. Unit {0}) _ _ (λ x _. tt))

  sub_gets-Keeps :
      {A : Type 0} (f : Run (FlowInstance D F) → A) → Keeps (Both (Follows i) o) (inside (gets f))
  sub_gets-Keeps f =
      inside_any-Keeps e i o (Ensures-gets {Q = λ _. Both (λ _. Unit {0}) o} f (λ r h. h))

  sub_move-Keeps : (to : String) → Keeps (Both (Follows i) o) (inside (move_to {D = D} {F = F} to))
  sub_move-Keeps to =
      inside_any-Keeps e i o (move_to-Ensures (λ _. Unit {0}) o (λ _. Unit {0}) to (λ x t _. tt))

  sub_external-Keeps :
      (given : List String) (s : String) (d : FlowDefinition D)
      → Keeps (Both (Follows i) o) (sub_external e chain given s d)
  unfolding sub_external
  sub_external-Keeps given s d = chosen (externals_from s d)
    where
      chosen :
          (xs : List (Transition D))
          → Keeps {A = Transition D} (Both (Follows i) o) (elim xs [
            | [] ↦ raise_error (
                flow_error "INVALID_TRANSITION"
                  ("No external transition from sub-flow state " <> s))
            | x ∷ rest ↦ or_refuse (select_external (x ∷ rest) given s)
          ])
      chosen [] = record { at = λ r h. h }
      chosen (x ∷ rest) =
          Ensures-weaken (λ r h. h) (λ t r p. p.0) (λ r h. h)
            (or_refuse-Ensures (Follows i) o (select_external (x ∷ rest) given s))

  module _ (d : FlowDefinition (FlowDefinition D)) (own : d ≡ i.definition)
      (parent_chain : Act (Parent D F) (Unit {0}))
      (onward : Keeps (Both (Follows i) o) parent_chain) where
    exit-Edge :
        (s exit u : String)
        → target_in e chain (exits_at e chain d s) exit ≡ some u
        → Edge i.definition s u
    exit-Edge s exit u h = subst (λ c. Edge c s u) own (exits_at-Edge e chain d s exit u h)

    sub_exhausted-Keeps :
        (name : String) → Keeps (Both (Follows i) o) (sub_exhausted e chain d parent_chain name)
    unfolding sub_exhausted
    sub_exhausted-Keeps name = Ensures-bind (sub_flow-Keeps _) λ _.
        Ensures-bind
          (update_flow-Ensures (Follows i) o (Follows i) _ _
            (λ x f. set_active_sub_flow-Follows x none f))
          λ _. current_state-Ensures e i o λ s led.
            Ensures-bind (leave_by-Keeps e i o chain name "ERROR" _ s led (exit-Edge s "ERROR"))
              λ _. onward

    sub_rejected-Keeps : Keeps (Both (Follows i) o) (sub_rejected e chain d parent_chain)
    unfolding sub_rejected
    sub_rejected-Keeps = Ensures-bind (sub_flow-Keeps _) λ _.
        Ensures-bind (sub_gets-Keeps _) λ failures. Ensures-bind (sub_gets-Keeps _) λ c.
          Ensures-bind
            (Ensures-when (leb c.max_guard_retries failures) (λ _. sub_exhausted-Keeps c.name)
              (λ r h. h))
            λ _. Ensures-pure false (λ r h. h)

    sub_guard-Keeps :
        (g : Option TransitionGuard) (t : Transition D) (from : String)
        → Keeps (Both (Follows i) o) (sub_guard e chain d parent_chain g t from)
    unfolding sub_guard sub_accepted
    sub_guard-Keeps none t from =
        Ensures-bind (sub_move-Keeps t.to) λ _. Ensures-pure true (λ r h. h)
    sub_guard-Keeps (some g) t from =
        Ensures-bind (call-Keeps (Follows i) o g.validate) output-Keeps
      where
        output-Keeps :
            (output : GuardOutput)
            → Keeps (Both (Follows i) o) (sub_output e chain d parent_chain g t from output)
        output-Keeps (accepted extra) = Ensures-bind (put_data-Keeps (Follows i) o extra) λ _.
            Ensures-bind (sub_move-Keeps t.to) λ _.
              Ensures-bind (record_step-Keeps (Follows i) o from t.to g.name) λ _.
                Ensures-bind (log_transition-Keeps (Follows i) o e from t.to g.name) λ _.
                  Ensures-bind (log_guard-Keeps (Follows i) o e from g.name _ _)
                    λ _. Ensures-pure true (λ r h. h)
        output-Keeps (rejected reason) = sub_rejected-Keeps
        output-Keeps expired =
            Ensures-bind
              (update_flow-Ensures (Follows i) o (Follows i) _ _ (λ x f. complete-Follows x _ f))
              λ _. Ensures-pure false (λ r h. h)

    sub_completed-Keeps :
        (name : String) (exit : Option String)
        → Keeps (Both (Follows i) o) (sub_completed e chain d parent_chain name exit)
    unfolding sub_completed follow_exit
    sub_completed-Keeps name none = Ensures-pure tt (λ r h. h)
    sub_completed-Keeps name (some exit) =
        Ensures-bind
          (update_flow-Ensures (Follows i) o (Follows i) _ _
            (λ x f. set_active_sub_flow-Follows x none f))
          λ _. current_state-Ensures e i o λ s led. followed s led _ (exit-Edge s exit)
      where
        followed :
            (s : String)
            → Leads i.definition i.current_state s
            → (target : Option String) → ((u : String) → target ≡ some u → Edge i.definition s u)
            → Keeps (Both (Follows i) o) (follow_exit e chain parent_chain name exit target)
        followed s led none edge = Ensures-pure tt (λ r h. h)
        followed s led (some target) edge =
            Ensures-bind (advance-Follows e i o s target _ led (edge target refl)) λ _. onward

    -- With the parent's own definition, and with any safe chain of the parent afterwards.
    pub resume_sub_flow-Keeps :
        (given : List String)
        → Keeps (Both (Follows i) o) (resume_sub_flow e chain d given parent_chain)
    unfolding resume_sub_flow
    resume_sub_flow-Keeps given = Ensures-bind state-Keeps λ from.
        Ensures-bind (sub_gets-Keeps _) λ c. Ensures-bind (sub_external-Keeps given from c) λ t.
          Ensures-bind (sub_guard-Keeps t.guard t from) λ again.
            Ensures-when again
              (λ _.
                Ensures-bind (inside-Keeps e i o (λ x. safe x o))
                  λ _. Ensures-bind (sub_gets-Keeps _) λ exit. sub_completed-Keeps c.name exit)
              (λ r h. h)
      where
        state-Keeps : Keeps (Both (Follows i) o) (inside (current_state {D = D} {F = F}))
        state-Keeps = unfold current_state in sub_gets-Keeps (λ r. r.flow.current_state)
