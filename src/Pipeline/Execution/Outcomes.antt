-- ===== src/Pipeline/Execution/Outcomes.antt =====
-- What the exception of a pipeline tells.
use tramli.Prelude.{
  String, ℕ, ◌≡◌, refl, sym, ◌∙◌, ap, Option, none, some, List, [], ◌∷◌, ◌++◌, Dict, At, at_here,
  at_there,
}
use mathlib.Core.List.{append_assoc, append-nil}
use tramli.Context.{Context, Value}
use tramli.Types.{Reply, returns, throws}
use tramli.Pipeline.{PipelineStep, Pipeline}
use tramli.Pipeline.Execution.{
  Progress, StepResult, went_on, stopped, log, stop, verify, after_process, announce, attempt,
  go_on, run_steps, execute, pipeline_exception,
}
use tramli.Pipeline.Execution.Completion.{names}

module _ {W : Type 0} where
  -- With `earlier` completed before: all of the steps are done, or one of them failed, all before it
  -- are done, and the exception carries the context as it was left.
  abbrev pub Ended : List String → List (PipelineStep W) → StepResult W → Type 0
  Ended earlier steps (went_on h) = h.completed ≡ earlier ++ names steps
  Ended earlier steps (stopped x h) =
      (before : List (PipelineStep W)) × (s : PipelineStep W) × At before s steps
      × (x.failed_step ≡ s.name)
      × (x.completed_steps ≡ earlier ++ names before)
      × (x.context ≡ h.context)

  module _ (p : Pipeline W) (flow_id : String) where
    abbrev Tried : List String → PipelineStep W → StepResult W → Type 0
    Tried earlier s (went_on h) = h.completed ≡ earlier ++ s.name ∷ []
    Tried earlier s (stopped x h) =
        (x.failed_step ≡ s.name) × (x.completed_steps ≡ earlier) × (x.context ≡ h.context)

    verify-Tried :
        (s : PipelineStep W) (before : List String) (g : Progress W) (missing : Option String)
        → Tried g.completed s (verify p flow_id s before g missing)
    unfolding verify log stop pipeline_exception
    verify-Tried s before g none = refl
    verify-Tried s before g (some k) = (refl, refl, refl)

    after_process-Tried :
        (s : PipelineStep W) (before : List String) (g : Progress W)
        (answer : W × Context × Reply (Unit {0}))
        → Tried g.completed s (after_process p flow_id s before g answer)
    unfolding after_process log stop pipeline_exception
    after_process-Tried s before g (w, c, returns u) =
        verify-Tried s before (record g { world = w; context = c }) _
    after_process-Tried s before g (w, c, throws x) = (refl, refl, refl)

    attempt-Tried :
        (s : PipelineStep W) (g : Progress W) → Tried g.completed s (attempt p flow_id s g)
    unfolding attempt announce log
    attempt-Tried s g =
        after_process-Tried s _ (announce p flow_id s g) (s.process g.world g.context)

    Ended-cons :
        (s : PipelineStep W) (steps : List (PipelineStep W)) (earlier completed : List String)
        (r : StepResult W)
        → completed ≡ earlier ++ s.name ∷ []
        → Ended completed steps r
        → Ended earlier (s ∷ steps) r
    Ended-cons s steps earlier completed (went_on h) q ended =
        ended ∙ ap (λ z. z ++ names steps) q ∙ append_assoc earlier (s.name ∷ []) (names steps)
    Ended-cons s steps earlier completed (stopped x h) q (before, t, at, name, done_before, c) = (
      s ∷ before,
      t,
      at_there at,
      name,
      done_before
          ∙ ap (λ z. z ++ names before) q
          ∙ append_assoc earlier (s.name ∷ []) (names before),
      c,
    )

    go_on-Ended :
        (s : PipelineStep W) (steps : List (PipelineStep W)) (earlier : List String)
        (first : StepResult W) (rest : Progress W → StepResult W)
        → Tried earlier s first
        → ((h : Progress W) → Ended h.completed steps (rest h))
        → Ended earlier (s ∷ steps) (go_on p flow_id first rest)
    unfolding go_on
    go_on-Ended s steps earlier (went_on h) rest tried ended =
        Ended-cons s steps earlier h.completed (rest h) tried (ended h)
    go_on-Ended s steps earlier (stopped x h) rest (name, before, c) ended =
        ([], s, at_here, name, before ∙ sym (append-nil earlier), c)

    run_steps-Ended :
        (steps : List (PipelineStep W)) (g : Progress W)
        → Ended g.completed steps (run_steps p flow_id steps g)
    unfolding run_steps
    run_steps-Ended [] g = sym (append-nil g.completed)
    run_steps-Ended (s ∷ steps) g =
        go_on-Ended s steps g.completed (attempt p flow_id s g) (run_steps p flow_id steps)
          (attempt-Tried s g) (run_steps-Ended steps)

  -- A run of a pipeline, whatever its steps do, either completes all of them in order, or throws an
  -- exception that names a step of the pipeline, lists exactly the steps before it as completed,
  -- and holds the context as the run left it.
  pub execute-Ended :
      (p : Pipeline W) (flow_id : String) (created_at : ℕ) (initial : Dict Value) (w : W)
      → Ended [] p.steps (execute p flow_id created_at initial w)
  unfolding execute
  execute-Ended p flow_id created_at initial w = run_steps-Ended p flow_id p.steps _
