-- ===== src/FlowError.antt =====
-- Errors (lang/ts/src/flow-error.ts) and what a caught value becomes. An `ErrorClass` stands for a
-- constructor: its identity, which `instanceof` compares, and its name. An error lists its own
-- class first and then the classes that it extends.
use tramli.Prelude.{String, ◌<>◌, Bool, Option, none, some, List, [], ◌∷◌, any, ℕ, nat_eq}

pub data FlowErrorType : Type 0 where
  business system retryable fatal : FlowErrorType

pub record ErrorClass : Type 0 where
  pub id : ℕ
  pub name : String

-- An `Error` object. Only a FlowError has the fields from `code` on.
pub record Error : Type 0 where
  pub class : ErrorClass
  pub bases : List ErrorClass
  pub message : String
  pub code : Option String
  pub error_type : Option FlowErrorType
  pub available_types : Option (List String)
  pub missing_types : Option (List String)

-- What `throw` may throw: an `Error`, or any other value, given here by its `String(e)`.
pub data Thrown : Type 0 where
  error : Error → Thrown
  value : String → Thrown

abbrev pub error_class : ErrorClass
error_class = record { id = 0; name = "Error" }

abbrev pub flow_error_class : ErrorClass
flow_error_class = record { id = 1; name = "FlowError" }

abbrev pub type_error_class : ErrorClass
type_error_class = record { id = 2; name = "TypeError" }

-- `new Error(message)`
unfoldable pub plain_error : String → Error
plain_error message = record {
  class = error_class;
  bases = [];
  message = message;
  code = none;
  error_type = none;
  available_types = none;
  missing_types = none;
}

-- The error that the runtime throws where a property of `undefined` is read.
unfoldable pub type_error : String → Error
type_error message = record {
  class = type_error_class;
  bases = error_class ∷ [];
  message = message;
  code = none;
  error_type = none;
  available_types = none;
  missing_types = none;
}

-- `new FlowError(code, message)`
unfoldable pub flow_error : String → String → Error
flow_error code message = record {
  class = flow_error_class;
  bases = error_class ∷ [];
  message = message;
  code = some code;
  error_type = none;
  available_types = none;
  missing_types = none;
}

unfoldable pub with_error_type : FlowErrorType → Error → Error
with_error_type t e = record e { error_type = some t }

unfoldable pub with_context_snapshot : List String → List String → Error → Error
with_context_snapshot available missing e = record e {
  available_types = some available;
  missing_types = some missing;
}

unfoldable pub invalid_transition : String → String → Error
unfolding flow_error
invalid_transition from to =
    flow_error "INVALID_TRANSITION" ("Invalid transition from " <> from <> " to " <> to)

unfoldable pub missing_context : String → Error
unfolding flow_error
missing_context key = flow_error "MISSING_CONTEXT" ("Missing context key: " <> key)

unfoldable pub dag_cycle : String → Error
unfolding flow_error
dag_cycle detail = flow_error "DAG_CYCLE" ("Auto/Branch transitions contain a cycle: " <> detail)

unfoldable pub max_chain_depth_error : Error
unfolding flow_error
max_chain_depth_error = flow_error "MAX_CHAIN_DEPTH" "Auto-chain exceeded maximum depth of 10"

-- `e instanceof c`
unfoldable pub instance_of : Error → ErrorClass → Bool
instance_of e c = any (λ d. nat_eq d.id c.id) (e.class ∷ e.bases)

-- `e instanceof Error ? e : new Error(String(e))`
unfoldable pub as_error : Thrown → Error
unfolding plain_error
as_error (error e) = e
as_error (value text) = plain_error text
