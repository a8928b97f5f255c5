-- ===== src/Samples.antt =====
-- A small order flow, the data of the tests: created →(payment) paid → shipped, with `failed` as the
-- state for errors.
use tramli.Prelude.{if◌then◌else◌, Bool, true, false, none, some, [], ◌∷◌, Dict}
use tramli.FlowError.{error, plain_error}
use tramli.Context.{Context, Value, primitive, put, has_key}
use tramli.Types.{
  returns, throws, accepted, rejected, StateConfig, StateProcessor, TransitionGuard, Transition,
  auto, external,
}
use tramli.FlowDefinition.{FlowDefinition}
use tramli.FlowInstance.{FlowInstance}
use tramli.FlowStore.{Session}
use tramli.Engine.{Engine, Run}
use tramli.Engine.Api.{World}

abbrev pub engine : Engine
engine = record {
  strict_mode = false;
  max_chain_depth = 10;
  transition_logger = true;
  state_logger = false;
  error_logger = true;
  guard_logger = true;
}

-- Needs an address and writes a label.
abbrev pub ship : StateProcessor
ship = record {
  name = "Ship";
  requires = "address" ∷ [];
  produces = "label" ∷ [];
  process = λ m c. (
    put "label" (primitive "L1") c,
    if has_key "address" c then returns tt else throws (error (plain_error "no address")),
  );
}

abbrev pub payment_guard : TransitionGuard
payment_guard = record {
  name = "PaymentGuard";
  requires = "payment" ∷ [];
  produces = [];
  max_retries = 3;
  external_trigger = none;
  validate = λ m c.
      (c, if has_key "payment" c then returns (accepted none) else returns (rejected "unpaid"));
}

abbrev pub pay : Transition ⊥
pay = record {
  from = "created";
  to = "paid";
  type = external;
  processor = none;
  guard = some payment_guard;
  branch = none;
  branch_targets = [];
  branch_label = none;
  sub_flow_definition = none;
  exit_mappings = none;
  timeout = none;
}

abbrev pub ship_order : Transition ⊥
ship_order = record {
  from = "paid";
  to = "shipped";
  type = auto;
  processor = some ship;
  guard = none;
  branch = none;
  branch_targets = [];
  branch_label = none;
  sub_flow_definition = none;
  exit_mappings = none;
  timeout = none;
}

abbrev pub state : Bool → Bool → StateConfig
state initial terminal = record { terminal = terminal; initial = initial }

abbrev pub order : FlowDefinition ⊥
order = record {
  name = "order";
  state_config =
      ("created", state true false)
      ∷ ("paid", state false false)
      ∷ ("shipped", state false true)
      ∷ ("failed", state false true)
      ∷ [];
  ttl = 1000;
  max_guard_retries = 3;
  transitions = pay ∷ ship_order ∷ [];
  error_transitions = ("created", "failed") ∷ ("paid", "failed") ∷ [];
  initial_state = some "created";
  terminal_states = "shipped" ∷ "failed" ∷ [];
  strict_mode = false;
  warnings = [];
  exception_routes = [];
  enter_actions = [];
  exit_actions = [];
}

abbrev pub world : World ⊥ ⊥
world = record {
  store = record { flows = []; transition_log = [] };
  moment = 0;
  clock = λ m. m;
  entries = [];
}

abbrev pub address : Dict Value
address = ("address", primitive "Main St") ∷ []

abbrev pub payment : Dict Value
payment = ("payment", primitive "card") ∷ []

abbrev pub created_flow : FlowInstance ⊥ ⊥
created_flow = record {
  id = "f1";
  session_id = "s1";
  definition = order;
  current_state = "created";
  guard_failure_count = 0;
  guard_failure_counts = [];
  version = 0;
  created_at = 3;
  expires_at = 1001;
  exit_state = none;
  active_sub_flow = none;
  last_error = none;
  state_entered_at = 2;
}

abbrev pub data_of : Dict Value → Context
data_of attributes = record {
  flow_id = "f1";
  created_at = 0;
  attributes = attributes;
  alias_to_key = [];
  key_to_alias = [];
}

abbrev pub stored : Session ⊥ ⊥
stored = record { flow = created_flow; context = data_of address }

-- The store after the flow was started.
abbrev pub started_world : World ⊥ ⊥
started_world = record {
  store = record { flows = ("f1", stored) ∷ []; transition_log = [] };
  moment = 4;
  clock = λ m. m;
  entries = [];
}

-- The flow in the state `paid` with these data.
abbrev pub paid_run : Dict Value → Run (FlowInstance ⊥ ⊥)
paid_run attributes = record {
  flow = record created_flow { current_state = "paid" };
  env = record {
    context = data_of attributes;
    moment = 5;
    clock = λ m. m;
    transition_log = [];
    entries = [];
  };
}
