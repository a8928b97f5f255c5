-- ===== src/Engine/Errors/Outcomes.antt =====
-- Where an error leads: the complete behaviour of the routing.
use tramli.Context.{snapshot}
use tramli.Prelude.{
  ◌<>◌, keys, String, ◌≡◌, refl, ap, subst, ◌∙◌, Bool, true, false, if◌then◌else◌, Option, none,
  some, truthy, [], ◌∷◌, ◌++◌, ℕ, ◌+◌, lookup, arith, Option-cases, inl, inr,
}
use tramli.FlowError.{Error, instance_of, with_context_snapshot, flow_error_class}
use tramli.FlowDefinition.{FlowDefinition}
use tramli.FlowInstance.{FlowInstance, transition_to, complete, set_last_error}
use tramli.FlowInstance.Follows.{
  transition_to-current_state, transition_to-definition, transition_to-exit_state, transition_to-id,
}
use tramli.FlowStore.{TransitionRecord, record_transition, sub_flow_of}
use tramli.Exec.{done, final, ◌>>=◌}
use tramli.Engine.Errors.Quiet.{handle_error-Quiet}
use tramli.Exec.Ensures.{returns-of-Ensures}
use tramli.Engine.{LogEntry, Engine, Run, now, update_flow, log_entry}
use tramli.Engine.Steps.{current_state, move_to, record_step, log_transition}
use tramli.Engine.Errors.{
  is_terminal, route_in, exception_route, note_cause, log_error, divert, fall_back, route_error,
  handle_error,
}

-- The target of an error: of the first route that fits the error, else of the state's own error
-- transition.
abbrev pub error_target : {D : Type 0} → String → Option Error → FlowDefinition D → Option String
error_target from cause d = elim (exception_route from cause d) [
  | some route ↦ some route.target
  | none ↦ truthy (lookup from d.error_transitions)
]

-- With no target the flow ends where it is; with one it is there, ended if that state is terminal,
-- and one transition is recorded.
abbrev pub Routed :
    {D F : Type 0} → Option String → Run (FlowInstance D F) → Run (FlowInstance D F) → Type 0
Routed none r s =
    (s.flow.current_state ≡ r.flow.current_state)
    × (s.flow.exit_state ≡ some "TERMINAL_ERROR")
    × (s.env.transition_log ≡ r.env.transition_log)
Routed (some target) r s =
    (s.flow.current_state ≡ target)
    × (s.flow.exit_state
        ≡ (if is_terminal target r.flow.definition then some target else r.flow.exit_state))
    × ((x : TransitionRecord) × (s.env.transition_log ≡ r.env.transition_log ++ x ∷ [])
        × (x.flow_id ≡ r.flow.id)
        × (x.from ≡ some r.flow.current_state)
        × (x.to ≡ target))

module _ (e : Engine) {D F : Type 0} (r : Run (FlowInstance D F)) where
  divert-Routed :
      (target trigger : String) → Routed (some target) r (final (divert e target trigger r))
  unfolding divert move_to now update_flow record_step log_transition log_entry ◌>>=◌ current_state
      complete is_terminal
  divert-Routed target trigger = (
    ground (arith, transition_to-current_state target now_at r.flow),
    ground (
      arith,
      transition_to-definition target now_at r.flow,
      transition_to-exit_state target now_at r.flow,
    ),
    (
      appended,
      unfold record_transition in ground arith,
      transition_to-id target now_at r.flow,
      refl,
      refl,
    ),
  )
    where
      now_at : ℕ
      now_at = r.env.clock r.env.moment

      appended : TransitionRecord
      appended = record {
        flow_id = (transition_to target now_at r.flow).id;
        from = some r.flow.current_state;
        to = target;
        trigger = trigger;
        sub_flow = sub_flow_of trigger;
        timestamp = r.env.clock (r.env.moment + 1);
      }

-- The routes look at the error's classes only.
error_target-noted :
    {D : Type 0} (from : String) (cause noted : Error) (d : FlowDefinition D)
    → noted.class ≡ cause.class
    → noted.bases ≡ cause.bases
    → error_target from (some noted) d ≡ error_target from (some cause) d
error_target-noted from cause noted d c b =
    ap
      (λ r. elim r [
        | some route ↦ some route.target
        | none ↦ truthy (lookup from d.error_transitions)
      ])
      same
  where
    same : exception_route from (some noted) d ≡ exception_route from (some cause) d
    same = unfold exception_route route_in instance_of in rw (c, b)

pub Routed-start :
    {D F : Type 0} (target : Option String) (r q s : Run (FlowInstance D F))
    → q.flow.current_state ≡ r.flow.current_state
    → q.flow.exit_state ≡ r.flow.exit_state
    → q.flow.definition ≡ r.flow.definition
    → q.flow.id ≡ r.flow.id
    → q.env.transition_log ≡ r.env.transition_log
    → Routed target q s
    → Routed target r s
Routed-start none r q s state exit d id log (k, l, m) = (k ∙ state, l, m ∙ log)
Routed-start (some target) r q s state exit d id log (k, l, (x, m, a, b, c)) = (
  k,
  l
      ∙ ap (λ z. if is_terminal target z then some target else q.flow.exit_state) d
      ∙ ap (λ z. if is_terminal target r.flow.definition then some target else z) exit,
  (x, m ∙ ap (λ z. z ++ x ∷ []) log, a ∙ id, b ∙ ap some state, c),
)

module _ (e : Engine) {D F : Type 0} (from : String) where
  fall_back-Routed :
      (target : Option String) (r : Run (FlowInstance D F))
      → Routed target r (final (fall_back e target r))
  unfolding fall_back update_flow complete
  fall_back-Routed none r = (refl, refl, refl)
  fall_back-Routed (some target) r = divert-Routed e r target "error"

  route_error-Routed :
      (cause : Option Error) (r : Run (FlowInstance D F))
      → Routed (error_target from cause r.flow.definition) r (final (route_error e from cause r))
  unfolding route_error
  route_error-Routed cause r = elim (Option-cases (exception_route from cause r.flow.definition)) [
    | inl none_fits ↦
        rw (none_fits, route_error, error_target)
          (fall_back-Routed (truthy (lookup from r.flow.definition.error_transitions)) r)
    | inr (route, fits) ↦ rw (fits, route_error, error_target) (divert-Routed e r route.target _)
  ]

  logged-Routed :
      (logging : Bool) (entry : LogEntry) (given : Option Error) (r : Run (FlowInstance D F))
      → Routed
          (error_target from given r.flow.definition)
          r
          (final ((log_entry logging entry >>= λ _. route_error e from given) r))
  unfolding ◌>>=◌ log_entry
  logged-Routed true entry given r =
      Routed-start _ r (record r { env = record r.env { entries = r.env.entries ++ entry ∷ [] } }) _
        refl refl refl refl refl (route_error-Routed given _)
  logged-Routed false entry given r = route_error-Routed given r

  final-Routed :
      (cause : Option Error) (r : Run (FlowInstance D F))
      → Routed (error_target from cause r.flow.definition) r (final (handle_error e from cause r))
  unfolding handle_error note_cause log_error ◌>>=◌ update_flow set_last_error
  final-Routed none r = logged-Routed e.error_logger _ none r
  final-Routed (some cause) r = noted-Routed (instance_of cause flow_error_class)
    where
      marked : Run (FlowInstance D F)
      marked = record r {
        flow = record r.flow { last_error = some (cause.class.name <> ": " <> cause.message) };
      }

      noted : Bool → Error
      noted is_flow_error = elim is_flow_error [
        | true ↦ with_context_snapshot (keys (snapshot r.env.context)) [] cause
        | false ↦ cause
      ]

      unchanged :
          (b : Bool)
          → error_target from (some (noted b)) r.flow.definition
            ≡ error_target from (some cause) r.flow.definition
      unchanged true =
          unfold with_context_snapshot in
          (error_target-noted from cause (noted true) r.flow.definition refl refl)
      unchanged false = refl

      noted-Routed :
          (b : Bool)
          → Routed (error_target from (some cause) r.flow.definition) r (
              final (
                (log_error e (some from) none "error" (some (noted b)) >>= λ _.
                route_error e from (some (noted b)))
                  marked))
      noted-Routed b =
          Routed-start (error_target from (some cause) r.flow.definition) r marked
            (final (
              (log_error e (some from) none "error" (some (noted b)) >>= λ _.
              route_error e from (some (noted b)))
                marked))
            refl refl refl refl refl
            (subst
              (λ z. Routed z marked (
                final (
                  (log_error e (some from) none "error" (some (noted b)) >>= λ _.
                  route_error e from (some (noted b)))
                    marked)))
              (unchanged b) (logged-Routed e.error_logger _ (some (noted b)) marked))

  -- An error never stops the engine: its routing returns, and leads to the error's target as
  -- `Routed` says, whatever the loggers and the definition are.
  pub handle_error_lem :
      (cause : Option Error) (r : Run (FlowInstance D F))
      → (s : Run (FlowInstance D F)) × (handle_error e from cause r ≡ done tt s)
        × Routed (error_target from cause r.flow.definition) r s
  handle_error_lem cause r =
      let (_, s, returned, _) =
        returns-of-Ensures (handle_error-Quiet e from cause r.env.context) r refl in
      (s, returned, subst (Routed _ r) (ap final returned) (final-Routed cause r))
