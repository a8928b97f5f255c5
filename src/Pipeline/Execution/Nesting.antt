-- ===== src/Pipeline/Execution/Nesting.antt =====
-- A pipeline inside another one.
use tramli.Prelude.{String, ℕ, ◌≡◌, refl, false, List, [], ◌∷◌, Dict, subst}
use tramli.FlowError.{as_error}
use tramli.Context
use tramli.Context.{Context, Value, put_all}
use tramli.Types.{Reply, returns, throws}
use tramli.Pipeline.{PipelineStep, Pipeline}
use tramli.Pipeline.Execution.{
  Progress, StepResult, went_on, stopped, log, stop, verify, after_process, announce, attempt,
  go_on, run_steps, execute, pipeline_exception, unless_thrown, process_all, as_step,
}

module _ {W : Type 0} where
  -- The same world and the same data; and the same error, if there is one.
  abbrev pub Agrees : StepResult W → W × Context × Reply (Unit {0}) → Type 0
  Agrees (went_on h) (w, c, returns _) = (h.world ≡ w) × (h.context ≡ c)
  Agrees (went_on h) (w, c, throws x) = ⊥
  Agrees (stopped e h) (w, c, returns _) = ⊥
  Agrees (stopped e h) (w, c, throws x) = (h.world ≡ w) × (h.context ≡ c) × (e.cause ≡ as_error x)

  module _ (p : Pipeline W) (flow_id : String) (lax : p.strict_mode ≡ false) where
    after_process-Agrees :
        (s : PipelineStep W) (before : List String) (g : Progress W)
        (answer : W × Context × Reply (Unit {0}))
        → Agrees (after_process p flow_id s before g answer) answer
    unfolding after_process verify log stop pipeline_exception
    after_process-Agrees s before g (w, c, returns u) = rw lax (refl, refl)
    after_process-Agrees s before g (w, c, throws x) = (refl, refl, refl)

    go_on-Agrees :
        (first : StepResult W) (answer : W × Context × Reply (Unit {0}))
        (rest : Progress W → StepResult W) (others : W → Context → W × Context × Reply (Unit {0}))
        → Agrees first answer
        → ((h : Progress W) → Agrees (rest h) (others h.world h.context))
        → Agrees (go_on p flow_id first rest) (unless_thrown answer others)
    unfolding go_on unless_thrown
    go_on-Agrees (went_on h) (w, c, returns u) rest others (q, k) agree =
        subst (λ z. Agrees (rest h) (others z c)) q
          (subst (λ z. Agrees (rest h) (others h.world z)) k (agree h))
    go_on-Agrees (went_on h) (w, c, throws x) rest others agrees agree = absurd agrees
    go_on-Agrees (stopped e h) (w, c, returns u) rest others agrees agree = absurd agrees
    go_on-Agrees (stopped e h) (w, c, throws x) rest others agrees agree = agrees

    run_steps-Agrees :
        (steps : List (PipelineStep W)) (g : Progress W)
        → Agrees (run_steps p flow_id steps g) (process_all steps g.world g.context)
    unfolding run_steps process_all attempt announce log
    run_steps-Agrees [] g = (refl, refl)
    run_steps-Agrees (s ∷ steps) g =
        go_on-Agrees (attempt p flow_id s g) (s.process g.world g.context)
          (run_steps p flow_id steps) (process_all steps)
          (after_process-Agrees s _ (announce p flow_id s g) (s.process g.world g.context))
          (run_steps-Agrees steps)

  -- A pipeline that is a step does to the world and to the data what its own run does when it is
  -- not strict, and throws what that run reports as the cause.
  pub as_step-Agrees :
      (p : Pipeline W) (flow_id : String) (created_at : ℕ) (initial : Dict Value) (w : W)
      → p.strict_mode ≡ false
      → Agrees
          (execute p flow_id created_at initial w)
          ((as_step p).process w (put_all initial (Context.new flow_id created_at [])))
  unfolding execute as_step
  as_step-Agrees p flow_id created_at initial w lax = run_steps-Agrees p flow_id lax p.steps _
