-- ===== src/Builder/Dag.antt =====
-- The check for cycles of automatic and branch transitions (`checkDag` and `hasCycle` of
-- lang/ts/src/flow-definition.ts). The fuel counts nested calls.
pub mod Ordered
pub mod Search
pub mod Exact
use tramli.Prelude.{
  String, ◌<>◌, ◌==◌, ℕ, zero, suc, Bool, true, false, not, ◌||◌, ◌&&◌, if◌then◌else◌, List, [],
  ◌∷◌, ◌++◌, contains, add, add_all, delete, filter, length, map,
}
use tramli.Types.{Transition, is_auto, is_branch}
use tramli.FlowDefinition.{FlowDefinition, all_states}

-- `true`, or `false` with the sets `visited` and `inStack`.
pub data CycleWalk : Type 0 where
  cycle : CycleWalk
  clear : List String → List String → CycleWalk

abbrev unless_cycle : CycleWalk → (List String → List String → CycleWalk) → CycleWalk
unless_cycle cycle k = cycle
unless_cycle (clear visited stack) k = k visited stack

-- `inStack.delete(node); return false`
abbrev leave : String → CycleWalk → CycleWalk
leave node cycle = cycle
leave node (clear visited stack) = clear visited (delete node stack)

-- The loop over the neighbours; `visit` is the recursive call.
unfoldable pub visit_all :
    (String → List String → List String → CycleWalk)
    → List String
    → List String
    → List String
    → CycleWalk
visit_all visit [] visited stack = clear visited stack
visit_all visit (n ∷ ns) visited stack =
    let explored = unless_cycle (visit n visited stack) (visit_all visit ns) in
    let skipped = visit_all visit ns visited stack in
    if contains n stack then cycle else if contains n visited then skipped else explored

module _ (next : String → List String) where
  unfoldable pub has_cycle : ℕ → String → List String → List String → CycleWalk
  unfolding delete
  has_cycle zero node visited stack = clear visited stack
  has_cycle (suc fuel) node visited stack =
      leave node (visit_all (has_cycle fuel) (next node) (add node visited) (add node stack))

-- What the loop over the states gives: the first state whose call finds a cycle.
pub data Involved : Type 0 where
  involving : String → Involved
  acyclic : Involved

abbrev first_cycle : String → CycleWalk → (List String → List String → Involved) → Involved
first_cycle s cycle k = involving s
first_cycle s (clear visited stack) k = k visited stack

unfoldable pub search_states :
    (String → List String → List String → CycleWalk)
    → List String
    → List String
    → List String
    → Involved
search_states visit [] visited stack = acyclic
search_states visit (s ∷ states) visited stack =
    let skipped = search_states visit states visited stack in
    let searched = first_cycle s (visit s visited stack) (search_states visit states) in
    if contains s visited then skipped else searched

cycle_errors : Involved → List String
cycle_errors acyclic = []
cycle_errors (involving s) = ("Auto/Branch transitions contain a cycle involving " <> s) ∷ []

module _ {D : Type 0} (d : FlowDefinition D) where
  -- `autoGraph.get(node)`
  unfoldable pub auto_targets : String → List String
  auto_targets node =
      add_all
        (map (λ t. t.to)
          (filter (λ t. (is_auto t.type || is_branch t.type) && t.from == node) d.transitions))
        []

  -- The states and every target: enough fuel.
  unfoldable pub auto_states : List String
  auto_states = all_states d ++ map (λ t. t.to) d.transitions

  unfoldable pub cycle_search : Involved
  cycle_search =
      search_states (has_cycle auto_targets (suc (length auto_states))) (all_states d) [] []

  unfoldable pub check_dag : List String
  unfolding cycle_errors
  check_dag = cycle_errors cycle_search
