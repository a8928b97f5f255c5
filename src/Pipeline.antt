-- ===== src/Pipeline.antt =====
-- Linear pipelines (lang/ts/src/pipeline.ts): the steps, the builder with its validation, and the
-- data flow. `W` is the world outside, which the user's code sees and changes.
pub mod Execution
pub mod Available
pub mod Validation
pub mod DataFlow
use tramli.Prelude.{
  String, ◌<>◌, Bool, true, false, if◌then◌else◌, ◌==◌, List, [], ◌∷◌, ◌++◌, map, length, contains,
  add, add_all, decimal, join,
}
use tramli.FlowError.{Error, flow_error}
use tramli.Context.{Context}
use tramli.Types.{Reply}

pub record PipelineStep (W : Type 0) : Type 0 where
  pub name : String
  pub requires : List String
  pub produces : List String
  pub process : W → Context → W × Context × Reply (Unit {0})

pub record PipelineDataFlow (W : Type 0) : Type 0 where
  pub steps : List (PipelineStep W)
  pub initially_available : List String

-- A logger is a flag: set or not.
pub record Pipeline (W : Type 0) : Type 0 where
  pub name : String
  pub steps : List (PipelineStep W)
  pub initially_available : List String
  pub data_flow : PipelineDataFlow W
  pub strict_mode : Bool
  pub transition_logger : Bool
  pub state_logger : Bool
  pub error_logger : Bool

pub record PipelineBuilder (W : Type 0) : Type 0 where
  pub name : String
  pub steps : List (PipelineStep W)
  pub initially_available : List String

-- One error for each key that the step requires and that is not available.
unfoldable pub missing_errors : String → List String → List String → List String
missing_errors name [] available = []
missing_errors name (req ∷ reqs) available =
    let later = missing_errors name reqs available in
    if contains req available
    then later
    else ("Step '" <> name <> "' requires " <> req <> " but it may not be available") ∷ later

dead_among : List String → List String → List String → List String
dead_among [] consumed dead = dead
dead_among (k ∷ ks) consumed dead =
    dead_among ks consumed (if contains k consumed then dead else add k dead)

module _ {W : Type 0} where
  unfoldable pub builder : String → PipelineBuilder W
  builder name = record { name = name; steps = []; initially_available = [] }

  unfoldable pub initially_available : List String → PipelineBuilder W → PipelineBuilder W
  initially_available ks b = record b { initially_available = add_all ks b.initially_available }

  unfoldable pub step : PipelineStep W → PipelineBuilder W → PipelineBuilder W
  step s b = record b { steps = b.steps ++ s ∷ [] }

  unfoldable pub validate : List (PipelineStep W) → List String → List String
  validate [] available = []
  validate (s ∷ steps) available =
      missing_errors s.name s.requires available ++ validate steps (add_all s.produces available)

pub data Built (W : Type 0) : Type 0 where
  built : Pipeline W → Built W
  invalid : Error → Built W

module _ {W : Type 0} where
  unfoldable pub unless_errors : PipelineBuilder W → List String → Built W
  unless_errors b [] = built (record {
    name = b.name;
    steps = b.steps;
    initially_available = b.initially_available;
    data_flow = record { steps = b.steps; initially_available = b.initially_available };
    strict_mode = false;
    transition_logger = false;
    state_logger = false;
    error_logger = false;
  })
  unless_errors b (e ∷ errors) = invalid (
      flow_error "INVALID_PIPELINE" (
        "Pipeline '"
        <> b.name
        <> "' has "
        <> decimal (length (e ∷ errors))
        <> " error(s):\n  - "
        <> join "\n  - " (e ∷ errors)))

  unfoldable pub build : PipelineBuilder W → Built W
  unfolding unless_errors
  build b = unless_errors b (validate b.steps b.initially_available)

  unfoldable pub set_strict_mode : Bool → Pipeline W → Pipeline W
  set_strict_mode strict p = record p { strict_mode = strict }

  unfoldable pub set_transition_logger : Bool → Pipeline W → Pipeline W
  set_transition_logger l p = record p { transition_logger = l }

  unfoldable pub set_state_logger : Bool → Pipeline W → Pipeline W
  set_state_logger l p = record p { state_logger = l }

  unfoldable pub set_error_logger : Bool → Pipeline W → Pipeline W
  set_error_logger l p = record p { error_logger = l }

  unfoldable pub remove_all_loggers : Pipeline W → Pipeline W
  remove_all_loggers p = record p {
    transition_logger = false;
    state_logger = false;
    error_logger = false;
  }

  all_consumed : List (PipelineStep W) → List String → List String
  all_consumed [] consumed = consumed
  all_consumed (s ∷ steps) consumed = all_consumed steps (add_all s.requires consumed)

  all_produced : List (PipelineStep W) → List String → List String
  all_produced [] produced = produced
  all_produced (s ∷ steps) produced = all_produced steps (add_all s.produces produced)

  -- Data that are there or produced, and that no step requires.
  unfoldable pub dead_data : PipelineDataFlow W → List String
  unfolding all_consumed all_produced dead_among
  dead_data d = dead_among (all_produced d.steps d.initially_available) (all_consumed d.steps []) []

  unfoldable pub step_order : PipelineDataFlow W → List String
  step_order d = map (λ s. s.name) d.steps

  available_from : List (PipelineStep W) → String → List String → List String
  available_from [] name available = available
  available_from (s ∷ steps) name available =
      let after = add_all s.produces available in
      let later = available_from steps name after in if s.name == name then after else later

  -- What is available after the first step of that name.
  unfoldable pub available_after : String → PipelineDataFlow W → List String
  unfolding available_from
  available_after name d = available_from d.steps name d.initially_available
