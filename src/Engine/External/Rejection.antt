-- ===== src/Engine/External/Rejection.antt =====
-- What a guard that rejects does to the flow.
use tramli.Prelude.{
  String, ◌≡◌, refl, ap, subst, ℕ, ◌+◌, ◌<◌, ◌≤◌, leb, Bool, true, false, none, some, ◌++◌, [], ◌∷◌,
  arith,
}
use tramli.Types.{Transition, TransitionGuard, rejected}
use tramli.FlowInstance.{FlowInstance, increment_guard_failure}
use tramli.Exec.{done, pure, gets, when, ◌>>=◌}
use tramli.Engine.{LogEntry, GuardResult, Engine, Run, update_flow, log_entry}
use tramli.Engine.Errors.{handle_error}
use tramli.Engine.Errors.Outcomes.{error_target, Routed, Routed-start, handle_error_lem}
use tramli.Engine.External.{log_guard, on_rejected, on_output}

-- One more failure of the guard: below the limit nothing but the counts changes, at the limit the
-- error is routed.
abbrev pub Rejected :
    {D F : Type 0} → ℕ → String → Run (FlowInstance D F) → Run (FlowInstance D F) → Type 0
Rejected max_retries state r s =
    (r.flow.guard_failure_count + 1 < max_retries
      → (s.flow.guard_failure_count ≡ r.flow.guard_failure_count + 1)
        × (s.flow.current_state ≡ r.flow.current_state)
        × (s.flow.exit_state ≡ r.flow.exit_state)
        × (s.env ≡ record r.env { entries = s.env.entries }))
    × (max_retries ≤ r.flow.guard_failure_count + 1
        → Routed (error_target state none r.flow.definition) r s)

module _ (e : Engine) {D F : Type 0} where
  limit-Rejected :
      (max_retries : ℕ) (state : String) (r q : Run (FlowInstance D F)) (b : Bool)
      → q.flow.guard_failure_count ≡ r.flow.guard_failure_count + 1
      → q.flow.current_state ≡ r.flow.current_state
      → q.flow.exit_state ≡ r.flow.exit_state
      → q.flow.definition ≡ r.flow.definition
      → q.flow.id ≡ r.flow.id
      → q.env ≡ record r.env { entries = q.env.entries }
      → leb max_retries q.flow.guard_failure_count ≡ b
      → (s : Run (FlowInstance D F)) × ((when b (handle_error e state none) >>= λ _. pure false) q
          ≡ done false s)
        × Rejected max_retries state r s
  unfolding ◌>>=◌ pure
  limit-Rejected max_retries state r q false count current exit d id env limit =
      (q, refl, ((λ _. (count, current, exit, env)), λ h. absurd (too_few h)))
    where
      too_few : ¬ max_retries ≤ r.flow.guard_failure_count + 1
      too_few h = ground arith
  limit-Rejected max_retries state r q true count current exit d id env limit =
      let (s, returned, routed) = handle_error_lem e state none q in
      (
        s,
        rw returned refl,
        (
          (λ h. absurd (reached h)),
          λ _.
              Routed-start (error_target state none r.flow.definition) r q s current exit d id
                (ap (λ z. z.transition_log) env)
                (subst (λ z. Routed (error_target state none z) q s) d routed),
        ),
      )
    where
      reached : ¬ r.flow.guard_failure_count + 1 < max_retries
      reached h = ground arith

  -- Where the guard of an external transition of a flow without an active sub-flow rejects, nothing
  -- is thrown and the answer is that the automatic chain is not to run. Below the limit of failures
  -- the flow stays where it is, open as it was, with one more failure counted and nothing recorded;
  -- at the limit the error is routed from the state, to the state's error transition or to the end.
  pub on_output-Rejected :
      (max_retries : ℕ) (g : TransitionGuard) (t : Transition D) (state reason : String)
      (r : Run (FlowInstance D F))
      → (s : Run (FlowInstance D F)) × (on_output e max_retries g t state (rejected reason) r
          ≡ done false s)
        × Rejected max_retries state r s
  unfolding on_output on_rejected log_guard log_entry update_flow gets ◌>>=◌ increment_guard_failure
  on_output-Rejected max_retries g t state reason r = by_logger e.guard_logger
    where
      counted : Run (FlowInstance D F) → Run (FlowInstance D F)
      counted q = record q { flow = increment_guard_failure (some g.name) q.flow }

      by_logger :
          (logging : Bool)
          → (s : Run (FlowInstance D F)) × ((log_entry logging (
                    LogEntry.guard r.flow.id r.flow.definition.name state g.name
                      GuardResult.rejected
                      (some reason))
                  >>= λ _. update_flow (increment_guard_failure (some g.name)) >>= λ _.
                      gets (λ q. q.flow.guard_failure_count) >>= λ failures.
                      when (leb max_retries failures) (handle_error e state none) >>= λ _.
                      pure false)
                r
              ≡ done false s)
            × Rejected max_retries state r s
      by_logger true =
          limit-Rejected max_retries state r
            (counted (record r {
              env = record r.env {
                entries =
                    r.env.entries
                    ++ LogEntry.guard r.flow.id r.flow.definition.name state g.name
                        GuardResult.rejected (some reason)
                      ∷ [];
              };
            }))
            _ refl refl refl refl refl refl refl
      by_logger false =
          limit-Rejected max_retries state r (counted r) _ refl refl refl refl refl refl refl
