-- ===== src/Pipeline/Execution.antt =====
-- Running a pipeline (`execute` and `asStep` of lang/ts/src/pipeline.ts). The values of the record
-- `Progress` are the local variables of `execute`, with the outside world and what was logged.
pub mod Completion
pub mod Outcomes
pub mod Nesting
use tramli.Prelude.{
  String, ◌<>◌, ℕ, Bool, true, false, if◌then◌else◌, not, Option, none, some, List, [], ◌∷◌, ◌++◌,
  map, Dict, keys, contains,
}
use tramli.FlowError.{
  Error, ErrorClass, Thrown, flow_error_class, error_class, flow_error, as_error,
}
use tramli.Context
use tramli.Context.{Context, Value, put_all, has_key, snapshot}
use tramli.Types.{Reply, returns, throws}
use tramli.Engine.{LogEntry}
use tramli.Pipeline.{PipelineStep, Pipeline}

abbrev pub pipeline_exception_class : ErrorClass
pipeline_exception_class = record { id = 3; name = "PipelineException" }

pub record PipelineException : Type 0 where
  pub error : Error
  pub failed_step : String
  pub completed_steps : List String
  pub context : Context
  pub cause : Error

unfoldable pub pipeline_exception : String → List String → Context → Error → PipelineException
pipeline_exception failed_step completed_steps context cause = record {
  error =
      record (flow_error "PIPELINE_STEP_FAILED"
        ("Pipeline step '" <> failed_step <> "' failed: " <> cause.message)) {
          class = pipeline_exception_class;
          bases = flow_error_class ∷ error_class ∷ [];
        };
  failed_step = failed_step;
  completed_steps = completed_steps;
  context = context;
  cause = cause;
}

pub record Progress (W : Type 0) : Type 0 where
  pub world : W
  pub context : Context
  pub completed : List String
  pub prev : String
  pub entries : List LogEntry

pub data StepResult (W : Type 0) : Type 0 where
  went_on : Progress W → StepResult W
  stopped : PipelineException → Progress W → StepResult W

-- The first key that is not in the context.
unfoldable pub first_missing : List String → Context → Option String
first_missing [] c = none
first_missing (k ∷ ks) c = let later = first_missing ks c in if has_key k c then later else some k

-- The entries for the keys that a step has added.
added_entries : String → String → String → List String → Dict Value → List LogEntry
added_entries id name state before [] = []
added_entries id name state before ((k, v) ∷ rest) =
    let later = added_entries id name state before rest in
    if contains k before then later else LogEntry.state id name state k v ∷ later

module _ {W : Type 0} (p : Pipeline W) (flow_id : String) where
  log : Bool → List LogEntry → Progress W → Progress W
  log logger new g = record g { entries = if logger then g.entries ++ new else g.entries }

  -- `throw new PipelineException(step.name, [...completed], ctx, err)`
  stop : PipelineStep W → Error → Progress W → StepResult W
  unfolding log
  stop s cause g = stopped (pipeline_exception s.name g.completed g.context cause) g

  verify : PipelineStep W → List String → Progress W → Option String → StepResult W
  unfolding stop added_entries
  verify s before g (some key) =
      stop s
        (flow_error "PRODUCES_VIOLATION"
          ("Step '" <> s.name <> "' declares produces " <> key <> " but did not put it"))
        g
  verify s before g none =
      went_on
        (record (log p.state_logger
          (added_entries flow_id p.name s.name before (snapshot g.context)) g) {
            completed = g.completed ++ s.name ∷ [];
            prev = s.name;
          })

  after_process :
      PipelineStep W → List String → Progress W → W × Context × Reply (Unit {0}) → StepResult W
  unfolding verify
  after_process s before g (w, c, returns _) =
      verify s before (record g { world = w; context = c })
        (if p.strict_mode then first_missing s.produces c else none)
  after_process s before g (w, c, throws x) = stop s (as_error x) (
      log p.error_logger
        (LogEntry.error flow_id p.name (some g.prev) (some s.name) s.name (some (as_error x)) ∷ [])
        (record g { world = w; context = c }))

  -- `this.transitionLogger?.(…)`
  announce : PipelineStep W → Progress W → Progress W
  unfolding log
  announce s g =
      log p.transition_logger (LogEntry.transition flow_id p.name (some g.prev) s.name s.name ∷ [])
        g

  -- The body of the loop.
  unfoldable pub attempt : PipelineStep W → Progress W → StepResult W
  unfolding announce after_process
  attempt s g =
      after_process s (keys (snapshot g.context)) (announce s g) (s.process g.world g.context)

  go_on : StepResult W → (Progress W → StepResult W) → StepResult W
  go_on (went_on g) k = k g
  go_on (stopped x g) k = stopped x g

  unfoldable pub run_steps : List (PipelineStep W) → Progress W → StepResult W
  unfolding attempt go_on
  run_steps [] g = went_on g
  run_steps (s ∷ steps) g = go_on (attempt s g) (run_steps steps)

-- `created_at` is what the clock reads. `went_on`: the call returns the context of the progress;
-- `stopped`: it throws.
unfoldable pub execute : {W : Type 0} → Pipeline W → String → ℕ → Dict Value → W → StepResult W
unfolding run_steps
execute p flow_id created_at initial w = run_steps p flow_id p.steps (record {
  world = w;
  context = put_all initial (Context.new flow_id created_at []);
  completed = [];
  prev = "initial";
  entries = [];
})

module _ {W : Type 0} where
  unless_thrown :
      W × Context × Reply (Unit {0})
      → (W → Context → W × Context × Reply (Unit {0}))
      → W × Context × Reply (Unit {0})
  unless_thrown (w, c, returns _) k = k w c
  unless_thrown (w, c, throws x) k = (w, c, throws x)

  -- The body of a pipeline that is a step: no logging, no check of what the steps produce.
  unfoldable pub process_all : List (PipelineStep W) → W → Context → W × Context × Reply (Unit {0})
  unfolding unless_thrown
  process_all [] w c = (w, c, returns tt)
  process_all (s ∷ steps) w c = unless_thrown (s.process w c) (process_all steps)

  unfoldable pub all_produces : List (PipelineStep W) → List String
  all_produces [] = []
  all_produces (s ∷ steps) = s.produces ++ all_produces steps

  unfoldable pub as_step : Pipeline W → PipelineStep W
  as_step p = record {
    name = p.name;
    requires = p.initially_available;
    produces = all_produces p.steps;
    process = process_all p.steps;
  }
