-- ===== src/Engine/Api.antt =====
-- The public operations of the engine over the store (`startFlow` and `resumeAndExecute` of
-- lang/ts/src/flow-engine.ts). The store holds the flow object itself, so what the engine changed is
-- in the store also where a call throws before it saves.
pub mod Follows
pub mod Expiry
use tramli.Prelude.{String, ℕ, ◌+◌, Option, none, some, truthy, List, [], ◌<>◌, Dict}
use tramli.FlowError.{error, flow_error}
use tramli.Context.{Value, put_all}
use tramli.Context
use tramli.FlowDefinition.{FlowDefinition, SubDefinition}
use tramli.FlowInstance.{FlowInstance, SubFlow, new}
use tramli.FlowStore.{InMemoryFlowStore, Session, create, load_for_update, save}
use tramli.Exec.{Outcome, done, raised}
use tramli.Engine.{LogEntry, Engine, Run}
use tramli.Engine.Chain.{execute_auto_chain}
use tramli.Engine.Resume.{resume_loaded}

-- The store and what lies outside the program: the clock and what was sent to the loggers.
pub record World (D F : Type 0) : Type 0 where
  pub store : InMemoryFlowStore D F
  pub moment : ℕ
  pub clock : ℕ → ℕ
  pub entries : List LogEntry

module _ {D F : Type 0} where
  unfoldable pub enter : Session D F → World D F → Run (FlowInstance D F)
  enter x w = record {
    flow = x.flow;
    env = record {
      context = x.context;
      moment = w.moment;
      clock = w.clock;
      transition_log = w.store.transition_log;
      entries = w.entries;
    };
  }

  -- The store after the action; its entry for the flow is the flow object as it is now.
  unfoldable pub settle : World D F → Run (FlowInstance D F) → World D F
  settle w r = record {
    store =
        save (record { flow = r.flow; context = r.env.context })
          (record w.store { transition_log = r.env.transition_log });
    moment = r.env.moment;
    clock = r.env.clock;
    entries = r.env.entries;
  }

  unfoldable pub settle_outcome :
      World D F
      → Outcome (Run (FlowInstance D F)) (Unit {0})
      → Outcome (World D F) (FlowInstance D F)
  unfolding settle
  settle_outcome w (done _ r) = done r.flow (settle w r)
  settle_outcome w (raised x r) = raised x (settle w r)

module _ (e : Engine) (n : ℕ) where
  abbrev Flow : Type 0
  Flow = FlowInstance (SubDefinition n) (SubFlow n)

  abbrev Store : Type 0
  Store = World (SubDefinition n) (SubFlow n)

  -- The flow object of `startFlow`, after the clock was read for the context, the expiry, the entry
  -- to the state and the creation.
  started :
      String
      → String
      → FlowDefinition (SubDefinition n)
      → Dict Value
      → String
      → Store
      → Session (SubDefinition n) (SubFlow n)
  started id session definition extra initial w = record {
    flow =
        new id session definition initial (w.clock (w.moment + 1) + definition.ttl)
          (w.clock (w.moment + 2)) (w.clock (w.moment + 3));
    context = put_all extra (Context.new id (w.clock w.moment) []);
  }

  launch : Session (SubDefinition n) (SubFlow n) → Store → Outcome Store Flow
  launch x w =
      let created = record w { store = create x w.store; moment = w.moment + 4 } in
      settle_outcome created (execute_auto_chain e n (enter x created))

  -- `id` is what `crypto.randomUUID()` returns.
  unfoldable pub start_flow :
      String → FlowDefinition (SubDefinition n) → String → Dict Value → Store → Outcome Store Flow
  unfolding started launch
  start_flow id definition session extra w = elim (truthy definition.initial_state) [
    | none ↦
        raised (error (flow_error "INVALID_FLOW_DEFINITION" "No initial state"))
          (record w { moment = w.moment + 1 })
    | some initial ↦ launch (started id session definition extra initial w) w
  ]

  unfoldable pub resume_and_execute :
      String → FlowDefinition (SubDefinition n) → Option (Dict Value) → Store → Outcome Store Flow
  resume_and_execute id definition extra w = elim (load_for_update id w.store) [
    | none ↦
        raised
          (error (flow_error "FLOW_NOT_FOUND" ("Flow " <> id <> " not found or already completed")))
          w
    | some x ↦ settle_outcome w (resume_loaded e n definition extra (enter x w))
  ]
