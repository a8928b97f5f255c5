-- ===== src/FlowInstance/Queries.antt =====
-- What a flow can say of itself: its path of states and the data that it waits for
-- (lang/ts/src/flow-instance.ts).
use tramli.Prelude.{
  String, ◌<>◌, ℕ, zero, suc, if◌then◌else◌, Option, none, some, List, [], ◌∷◌, ◌++◌, add_all,
}
use tramli.Context.{Context, has_key}
use tramli.Types.{Transition, TransitionGuard, StateProcessor}
use tramli.FlowDefinition.{SubDefinition, transitions_from, externals_from}
use tramli.DataFlowGraph.{DataFlowGraph}
use tramli.DataFlowGraph.Queries.{available_at}
use tramli.FlowInstance.{FlowInstance, SubFlow}

-- The keys of the list that the context does not have.
absent : List String → Context → List String
absent [] c = []
absent (r ∷ rs) c = let rest = absent rs c in if has_key r c then rest else r ∷ rest

guard_requires : Option TransitionGuard → List String
guard_requires none = []
guard_requires (some g) = g.requires

processor_requires : Option StateProcessor → List String
processor_requires none = []
processor_requires (some p) = p.requires

missing_of : {D : Type 0} → List (Transition D) → Context → List String
unfolding absent guard_requires processor_requires
missing_of [] c = []
missing_of (t ∷ ts) c =
    absent (guard_requires t.guard) c
    ++ (absent (processor_requires t.processor) c ++ missing_of ts c)

waited_by : Option TransitionGuard → List String
waited_by none = []
waited_by (some g) = elim g.external_trigger [ none ↦ g.requires | some trigger ↦ trigger ∷ [] ]

waiting_of : {D : Type 0} → List (Transition D) → List String → List String
unfolding waited_by
waiting_of [] waiting = waiting
waiting_of (t ∷ ts) waiting = waiting_of ts (add_all (waited_by t.guard) waiting)

module _ {D F : Type 0} where
  -- What the next transitions require and the context lacks, each once.
  unfoldable pub missing_for : Context → FlowInstance D F → List String
  unfolding missing_of
  missing_for c f = add_all (missing_of (transitions_from f.current_state f.definition) c) []

  waiting_here : FlowInstance D F → List String
  unfolding waiting_of
  waiting_here f = waiting_of (externals_from f.current_state f.definition) []

-- What the next external transition waits for, in the deepest active sub-flow.
unfoldable pub waiting_for : (n : ℕ) → FlowInstance (SubDefinition n) (SubFlow n) → List String
unfolding waiting_here
waiting_for zero f = waiting_here f
waiting_for (suc n) f = elim f.active_sub_flow [ none ↦ waiting_here f | some s ↦ waiting_for n s ]

-- The states from the root to the deepest active sub-flow.
unfoldable pub state_path : (n : ℕ) → FlowInstance (SubDefinition n) (SubFlow n) → List String
state_path zero f = f.current_state ∷ []
state_path (suc n) f = elim f.active_sub_flow [
  | none ↦ f.current_state ∷ []
  | some s ↦ f.current_state ∷ state_path n s
]

-- `path.join('/')`
unfoldable pub join_slash : List String → String
join_slash [] = ""
join_slash (s ∷ []) = s
join_slash (s ∷ t ∷ rest) = s <> "/" <> join_slash (t ∷ rest)

unfoldable pub state_path_string : (n : ℕ) → FlowInstance (SubDefinition n) (SubFlow n) → String
unfolding state_path join_slash
state_path_string n f = join_slash (state_path n f)

-- The graph of the definition stands beside the flow.
unfoldable pub available_data :
    {D F : Type 0} → Option DataFlowGraph → FlowInstance D F → List String
available_data none flow = []
available_data (some graph) flow = available_at flow.current_state graph
