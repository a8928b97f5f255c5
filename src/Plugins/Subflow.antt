-- ===== src/Plugins/Subflow.antt =====
-- Whether a sub-flow can start in a state of its parent
-- (lang/ts-plugins/src/subflow/guaranteed-subflow-validator.ts). The graphs stand beside their
-- definitions.
use tramli.Prelude.{
  arith, filter-nil, filter-none, String, ◌<>◌, ◌≡◌, refl, ◌↔◌, ◌⊎◌, inl, inr, Bool, true, false,
  not, Option, none, some, List, [], ◌∷◌, filter, contains, add_all, join, Member, ap,
}
use tramli.FlowError.{Error, plain_error}
use tramli.FlowDefinition.{FlowDefinition}
use tramli.Pipeline.Available.{
  contains-Member, Member-contains, Member-add_all, add_all-Member, add_all-Member_old,
}
use tramli.DataFlowGraph.{DataFlowGraph}
use tramli.DataFlowGraph.Queries.{available_at}

-- What `validate` throws, if anything.
missing_error : String → List String → Option Error
missing_error name [] = none
missing_error name (m ∷ ms) = some (
    plain_error (
      "Subflow "
      <> name
      <> " is missing guaranteed types at entry: ["
      <> join ", " (m ∷ ms)
      <> "]"))

missing_at_entry : DataFlowGraph → String → DataFlowGraph → String → List String → List String
missing_at_entry parent parent_state sub initial guaranteed =
    filter (λ req. not (contains req (add_all guaranteed (available_at parent_state parent))))
      (available_at initial sub)

check_entry :
    String → Option String → DataFlowGraph → String → DataFlowGraph → List String → Option Error
unfolding missing_error missing_at_entry
check_entry name none parent parent_state sub guaranteed =
    some (plain_error ("Subflow " <> name <> " has no initial state"))
check_entry name (some initial) parent parent_state sub guaranteed =
    missing_error name (missing_at_entry parent parent_state sub initial guaranteed)

module _ {E : Type 0} where
  unfoldable pub validate :
      Option DataFlowGraph
      → String
      → FlowDefinition E
      → Option DataFlowGraph
      → List String
      → Option Error
  unfolding check_entry
  validate none parent_state sub graph guaranteed =
      some (plain_error "DataFlowGraph is required for subflow validation")
  validate (some parent) parent_state sub none guaranteed =
      some (plain_error "DataFlowGraph is required for subflow validation")
  validate (some parent) parent_state sub (some graph) guaranteed =
      check_entry sub.name sub.initial_state parent parent_state graph guaranteed

not-false : (b : Bool) → not b ≡ false → b ≡ true
not-false b h = ground arith

missing_error-none : (name : String) (ms : List String) → missing_error name ms ≡ none → ms ≡ []
unfolding missing_error
missing_error-none name [] h = refl
missing_error-none name (m ∷ ms) h = cc

module _ {E : Type 0} where
  -- With both graphs and an initial state, the sub-flow is accepted exactly when each key that it has
  -- in its initial state is available in the parent's state or guaranteed.
  pub validate_lem :
      (parent graph : DataFlowGraph) (parent_state initial : String) (sub : FlowDefinition E)
      (guaranteed : List String)
      → sub.initial_state ≡ some initial
      → (validate (some parent) parent_state sub (some graph) guaranteed ≡ none) ↔ (
          (k : String)
          → Member k (available_at initial graph)
          → Member k guaranteed ⊎ Member k (available_at parent_state parent))
  unfolding validate check_entry missing_error missing_at_entry
  validate_lem parent graph parent_state initial sub guaranteed starts =
      rw (starts, validate, check_entry) (λ h k m. provided k m h, λ h. nothing_missing h)
    where
      there_are : List String
      there_are = add_all guaranteed (available_at parent_state parent)

      provided :
          (k : String)
          → Member k (available_at initial graph)
          → missing_error sub.name (missing_at_entry parent parent_state graph initial guaranteed)
            ≡ none
          → Member k guaranteed ⊎ Member k (available_at parent_state parent)
      provided k m h = Member-add_all guaranteed (available_at parent_state parent) (
          contains-Member k there_are (
            not-false (contains k there_are) (
              filter-nil (λ req. not (contains req there_are)) (available_at initial graph)
                (missing_error-none sub.name _ h) m)))

      inside :
          (k : String)
          → Member k guaranteed ⊎ Member k (available_at parent_state parent)
          → Member k there_are
      inside k (inl l) = add_all-Member (available_at parent_state parent) l
      inside k (inr o) = add_all-Member_old guaranteed (available_at parent_state parent) o

      nothing_missing :
          ((k : String)
            → Member k (available_at initial graph)
            → Member k guaranteed ⊎ Member k (available_at parent_state parent))
          → missing_error sub.name (missing_at_entry parent parent_state graph initial guaranteed)
            ≡ none
      nothing_missing h = ap (missing_error sub.name) (
          filter-none (λ req. not (contains req there_are)) (available_at initial graph)
            λ k m. rw (Member-contains (inside k (h k m))) refl)
