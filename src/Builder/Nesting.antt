-- ===== src/Builder/Nesting.antt =====
-- Sub-flows inside sub-flows (`checkSubFlowNestingDepth` and `checkSubFlowCircularRef` of
-- lang/ts/src/flow-definition.ts). A definition of nesting depth `n` holds ones of smaller depth.
pub mod Chains
use tramli.Prelude.{
  String, ◌<>◌, ℕ, zero, suc, ltb, Bool, if◌then◌else◌, Option, none, some, List, [], ◌∷◌, ◌++◌,
  contains, add, join,
}
use tramli.Types.{Transition, is_sub_flow}
use tramli.FlowDefinition.{FlowDefinition, SubDefinition}

-- The errors of each sub-flow in turn.
sub_flow_errors : {E : Type 0} → (E → List String) → Bool → Option E → List String
sub_flow_errors check is_sub none = []
sub_flow_errors check is_sub (some sub) = if is_sub then check sub else []

unfoldable pub over_sub_flows : {E : Type 0} → (E → List String) → List (Transition E) → List String
unfolding sub_flow_errors
over_sub_flows check [] = []
over_sub_flows check (t ∷ ts) =
    sub_flow_errors check (is_sub_flow t.type) t.sub_flow_definition ++ over_sub_flows check ts

depth_message : String → String
depth_message name = "SubFlow nesting depth exceeds maximum of 3 (flow: " <> name <> ")"

unfoldable pub check_sub_flow_nesting_depth :
    (n : ℕ) → FlowDefinition (SubDefinition n) → ℕ → List String
unfolding depth_message
check_sub_flow_nesting_depth zero d depth = if ltb 3 depth then depth_message d.name ∷ [] else []
check_sub_flow_nesting_depth (suc n) d depth =
    let nested =
      over_sub_flows (λ sub. check_sub_flow_nesting_depth n sub (suc depth)) d.transitions in
    if ltb 3 depth then depth_message d.name ∷ [] else nested

circular_message : List String → String → String
circular_message visited name =
    "Circular sub-flow reference detected: " <> join " -> " visited <> " -> " <> name

unfoldable pub check_sub_flow_circular_ref :
    (n : ℕ) → FlowDefinition (SubDefinition n) → List String → List String
unfolding circular_message
check_sub_flow_circular_ref zero d visited =
    if contains d.name visited then circular_message visited d.name ∷ [] else []
check_sub_flow_circular_ref (suc n) d visited =
    let nested =
      over_sub_flows (λ sub. check_sub_flow_circular_ref n sub (add d.name visited))
        d.transitions in
    if contains d.name visited then circular_message visited d.name ∷ [] else nested
