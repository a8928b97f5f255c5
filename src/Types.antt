-- ===== src/Types.antt =====
-- The vocabulary of a flow (lang/ts/src/types.ts): states, transitions and the code that the user of
-- the library supplies. That code is given by its answers: a call sees the moment, a number that
-- every call and every reading of the clock advances, and the context; it returns the context as it
-- leaves it and its reply. So one function may answer each time differently, and may throw.
use tramli.Prelude.{String, ℕ, Bool, true, false, Option, List, Dict}
use tramli.FlowError.{Thrown}
use tramli.Context.{Context, Value}

pub data Reply (A : Type 0) : Type 0 where
  returns : A → Reply A
  throws : Thrown → Reply A

abbrev pub Callback : Type 0 → Type 0
Callback A = ℕ → Context → Context × Reply A

pub record StateConfig : Type 0 where
  pub terminal : Bool
  pub initial : Bool

pub data GuardOutput : Type 0 where
  accepted : Option (Dict Value) → GuardOutput
  rejected : String → GuardOutput
  expired : GuardOutput

pub data TransitionType : Type 0 where
  auto external branch sub_flow : TransitionType

pub record StateProcessor : Type 0 where
  pub name : String
  pub requires : List String
  pub produces : List String
  pub process : Callback (Unit {0})

pub record TransitionGuard : Type 0 where
  pub name : String
  pub requires : List String
  pub produces : List String
  pub max_retries : ℕ
  pub external_trigger : Option String
  pub validate : Callback GuardOutput

pub record BranchProcessor : Type 0 where
  pub name : String
  pub requires : List String
  pub decide : Callback String

-- `D` is the type of the definitions that may stand inside as sub-flows.
pub record Transition (D : Type 0) : Type 0 where
  pub from : String
  pub to : String
  pub type : TransitionType
  pub processor : Option StateProcessor
  pub guard : Option TransitionGuard
  pub branch : Option BranchProcessor
  pub branch_targets : Dict String
  pub branch_label : Option String
  pub sub_flow_definition : Option D
  pub exit_mappings : Option (Dict String)
  pub timeout : Option ℕ

-- `t.type === …`
unfoldable pub is_auto : TransitionType → Bool
is_auto auto = true
is_auto _ = false

unfoldable pub is_external : TransitionType → Bool
is_external external = true
is_external _ = false

unfoldable pub is_branch : TransitionType → Bool
is_branch branch = true
is_branch _ = false

unfoldable pub is_sub_flow : TransitionType → Bool
is_sub_flow sub_flow = true
is_sub_flow _ = false
