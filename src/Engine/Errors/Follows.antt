-- ===== src/Engine/Errors/Follows.antt =====
-- The routing of errors follows the edges of the definition.
use tramli.Prelude.{
  String, ◌≡◌, refl, subst, Option, none, some, truthy-eq-some, find-eq-some, lookup, List,
}
use tramli.FlowError.{Error}
use tramli.FlowDefinition.{FlowDefinition, ExceptionRoute}
use tramli.FlowDefinition.Edges.{Edge, Leads}
use tramli.FlowInstance.{FlowInstance}
use tramli.FlowInstance.Follows.{
  Follows, transition_to-Follows, complete-Follows, set_last_error-Follows,
}
use tramli.Exec.Ensures.{Keeps, Post-elim, Ensures-pure, Ensures-gets, Ensures-bind, Ensures-when}
use tramli.Engine.{Engine, Env}
use tramli.Engine.Frame.{Both, log_entry-Keeps, update_flow-Ensures}
use tramli.Engine.Steps.{current_state}
use tramli.Engine.Steps.Frame.{record_step-Keeps, log_transition-Keeps, move_to-Ensures}
use tramli.Engine.Errors.{
  route_in, exception_route, note_cause, log_error, divert, fall_back, route_error, handle_error,
}

module _ {D : Type 0} (d : FlowDefinition D) (from : String) (route : ExceptionRoute) where
  route_in-Edge :
      (cause : Error) (r : Option (List ExceptionRoute))
      → lookup from d.exception_routes ≡ r
      → route_in cause r ≡ some route
      → Edge d from route.target
  unfolding route_in
  route_in-Edge cause none l h = cc
  route_in-Edge cause (some routes) l h =
      let (m, _) = find-eq-some _ routes h in Edge.exception routes route l m refl

  exception_route-Edge :
      (cause : Option Error) → exception_route from cause d ≡ some route → Edge d from route.target
  unfolding exception_route
  exception_route-Edge none h = cc
  exception_route-Edge (some cause) h = route_in-Edge cause _ refl h

module _ (e : Engine) {D F : Type 0} (i : FlowInstance D F) (o : Env) (from : String)
    (led : Leads i.definition i.current_state from) where
  divert-Keeps :
      (target trigger : String)
      → Edge i.definition from target
      → Keeps (Both (Follows i) o) (divert e target trigger)
  unfolding divert current_state
  divert-Keeps target trigger edge =
      Ensures-bind (Ensures-gets {Q = λ _. Both (Follows i) o} _ (λ s h. h)) λ s.
        Ensures-bind
          (move_to-Ensures (Follows i) o (Follows i) target
            (λ x t f. transition_to-Follows x from target t led edge f))
          λ _. Ensures-bind (record_step-Keeps (Follows i) o s target trigger) λ _.
            Ensures-bind (log_transition-Keeps (Follows i) o e s target trigger) λ _.
              Ensures-bind (Ensures-gets {Q = λ _. Both (Follows i) o} _ (λ s h. h)) λ terminal.
                Ensures-when terminal
                  (λ _.
                    update_flow-Ensures (Follows i) o (Follows i) _ _
                      (λ x f. complete-Follows x target f))
                  (λ s h. h)

  fall_back-Keeps :
      (target : Option String)
      → ((s : String) → target ≡ some s → Edge i.definition from s)
      → Keeps (Both (Follows i) o) (fall_back e target)
  unfolding fall_back
  fall_back-Keeps none edge =
      update_flow-Ensures (Follows i) o (Follows i) _ _ (λ x f. complete-Follows x _ f)
  fall_back-Keeps (some target) edge = divert-Keeps target "error" (edge target refl)

  route_error-Keeps : (cause : Option Error) → Keeps (Both (Follows i) o) (route_error e from cause)
  unfolding route_error
  route_error-Keeps cause = record {
    at = λ r h.
        let same = h.0.definition in
        Post-elim (λ _. Both (Follows i) o) (Both (Follows i) o)
          (exception_route from cause r.flow.definition) _ _
          (λ _.
            (fall_back-Keeps _
                (λ s k. subst (λ d. Edge d from s) same (Edge.error (truthy-eq-some _ k)))).at
              r h)
          (λ route k.
            (divert-Keeps route.target _ (
                subst (λ d. Edge d from route.target) same
                  (exception_route-Edge r.flow.definition from route cause k))).at
              r h);
  }

  note_cause-Keeps :
      (cause : Option Error) → Keeps (Both (Follows i) o) (note_cause e {D = D} {F = F} cause)
  unfolding note_cause
  note_cause-Keeps none = Ensures-pure none (λ s h. h)
  note_cause-Keeps (some cause) =
      Ensures-bind
        (update_flow-Ensures (Follows i) o (Follows i) _ _ (λ x f. set_last_error-Follows x _ f))
        λ _.
          Ensures-bind (Ensures-gets {Q = λ _. Both (Follows i) o} _ (λ s h. h))
            λ available. Ensures-pure _ (λ s h. h)

  -- Whatever the cause, the flow is led on from `from`.
  pub handle_error-Keeps :
      (cause : Option Error) → Keeps (Both (Follows i) o) (handle_error e from cause)
  unfolding handle_error
  handle_error-Keeps cause =
      Ensures-bind (note_cause-Keeps cause)
        λ noted. Ensures-bind (logged noted) λ _. route_error-Keeps noted
    where
      logged :
          (noted : Option Error)
          → Keeps (Both (Follows i) o) (log_error e (some from) none "error" noted)
      logged noted = record { at = λ r h. (log_entry-Keeps (Follows i) o _ _).at r h }
