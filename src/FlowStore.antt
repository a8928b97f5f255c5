-- ===== src/FlowStore.antt =====
-- The store of flows and its log of transitions (lang/ts/src/in-memory-flow-store.ts). The map holds
-- references to the flow objects. `Session` is what such a reference reaches: the flow, and the
-- context that it shares with its sub-flows.
use Prim.Native.String.{len, slice, find}
use text.Mathlib.Text.{starts_with}
use tramli.Prelude.{
  String, ◌+◌, ℕ, leb, if◌then◌else◌, Option, none, some, List, [], ◌∷◌, ◌++◌, Dict, lookup, insert,
}
use tramli.Context.{Context}
use tramli.FlowInstance.{FlowInstance, is_completed}

pub record TransitionRecord : Type 0 where
  pub flow_id : String
  pub from : Option String
  pub to : String
  pub trigger : String
  pub sub_flow : Option String
  pub timestamp : ℕ

pub record Session (D F : Type 0) : Type 0 where
  pub flow : FlowInstance D F
  pub context : Context

pub record InMemoryFlowStore (D F : Type 0) : Type 0 where
  pub flows : Dict (Session D F)
  pub transition_log : List TransitionRecord

-- The name between `subFlow:` and the first slash, or to the end.
unfoldable pub sub_flow_of : String → Option String
sub_flow_of trigger =
    let slash = find trigger "/" in
    if starts_with trigger "subFlow:"
    then some (slice trigger 8 (if leb (slash + 1) (len trigger) then slash else len trigger))
    else none

-- `recordTransition`: one entry at the end of the log.
unfoldable pub record_transition :
    String → Option String → String → String → ℕ → List TransitionRecord → List TransitionRecord
unfolding sub_flow_of
record_transition flow_id from to trigger now log =
    log
    ++ record {
      flow_id = flow_id;
      from = from;
      to = to;
      trigger = trigger;
      sub_flow = sub_flow_of trigger;
      timestamp = now;
    }
      ∷ []

module _ {D F : Type 0} where
  unfoldable pub empty : InMemoryFlowStore D F
  empty = record { flows = []; transition_log = [] }

  unfoldable pub clear : InMemoryFlowStore D F → InMemoryFlowStore D F
  clear s = record s { flows = []; transition_log = [] }

  unfoldable pub create : Session D F → InMemoryFlowStore D F → InMemoryFlowStore D F
  create x s = record s { flows = insert x.flow.id x s.flows }

  -- A completed flow counts as absent.
  incomplete : Option (Session D F) → Option (Session D F)
  incomplete none = none
  incomplete (some x) = if is_completed x.flow then none else some x

  unfoldable pub load_for_update : String → InMemoryFlowStore D F → Option (Session D F)
  unfolding incomplete
  load_for_update id s = incomplete (lookup id s.flows)

  unfoldable pub save : Session D F → InMemoryFlowStore D F → InMemoryFlowStore D F
  save x s = record s { flows = insert x.flow.id x s.flows }
