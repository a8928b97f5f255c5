-- ===== src/Engine.antt =====
-- The state that the engine works on (lang/ts/src/flow-engine.ts) and its basic actions.
pub mod Frame
pub mod Select
pub mod Steps
pub mod Errors
pub mod Chain
pub mod External
pub mod SubResume
pub mod Resume
pub mod Api
use tramli.Prelude.{
  String, ℕ, ◌+◌, Bool, true, false, if◌then◌else◌, Option, none, some, List, [], ◌∷◌, ◌++◌, Dict,
}
use tramli.FlowError.{Error, Thrown}
use tramli.Context.{Context, Value}
use tramli.Types.{Reply, returns, throws, Callback}
use tramli.FlowInstance.{FlowInstance}
use tramli.FlowStore.{TransitionRecord}
use tramli.Exec.{Outcome, done, raised, Exec}

pub data GuardResult : Type 0 where
  accepted rejected expired : GuardResult

-- What the loggers receive, without the durations.
pub data LogEntry : Type 0 where
  transition : String → String → Option String → String → String → LogEntry
  state : String → String → String → String → Value → LogEntry
  error : String → String → Option String → Option String → String → Option Error → LogEntry
  guard : String → String → String → String → GuardResult → Option String → LogEntry

-- A logger is a flag here: set or not. A logger that is set neither throws nor touches the flow.
pub record Engine : Type 0 where
  pub strict_mode : Bool
  pub max_chain_depth : ℕ
  pub transition_logger : Bool
  pub state_logger : Bool
  pub error_logger : Bool
  pub guard_logger : Bool

abbrev pub default_max_chain_depth : ℕ
default_max_chain_depth = 10

-- `clock m` is what `new Date()` reads at moment `m`.
pub record Env : Type 0 where
  pub context : Context
  pub moment : ℕ
  pub clock : ℕ → ℕ
  pub transition_log : List TransitionRecord
  pub entries : List LogEntry

pub record Run (F : Type 0) : Type 0 where
  pub flow : F
  pub env : Env

-- What a method of the engine does on a flow of type `F`.
abbrev pub Act : Type 0 → Type 0 → Type 0
Act F A = Exec (Run F) A

-- `throw new FlowError(…)`
abbrev pub raise_error : {F A : Type 0} → Error → Act F A
raise_error e r = raised (Thrown.error e) r

module _ {F : Type 0} where
  abbrev set_context : Context → Run F → Run F
  set_context c r = record r { env = record r.env { context = c } }

  -- `new Date()`
  unfoldable pub now : Act F ℕ
  now r =
      let env = r.env in
      done (env.clock env.moment) (record r { env = record env { moment = env.moment + 1 } })

  unfoldable pub update_context : (Context → Context) → Act F (Unit {0})
  update_context f r = done tt (set_context (f r.env.context) r)

  unfoldable pub update_flow : (F → F) → Act F (Unit {0})
  update_flow f r = done tt (record r { flow = f r.flow })

  unfoldable pub log_entry : Bool → LogEntry → Act F (Unit {0})
  log_entry set entry r =
      if set
      then done tt (record r { env = record r.env { entries = r.env.entries ++ entry ∷ [] } })
      else done tt r

  abbrev reply_to : {A : Type 0} → Reply A → Run F → Outcome (Run F) A
  reply_to (returns a) r = done a r
  reply_to (throws e) r = raised e r

  -- A call of the code that the user supplies, which may change the context also where it throws.
  unfoldable pub call : {A : Type 0} → Callback A → Act F A
  call f r =
      let (c, reply) = f r.env.moment r.env.context in
      reply_to reply (record r { env = record r.env { context = c; moment = r.env.moment + 1 } })
