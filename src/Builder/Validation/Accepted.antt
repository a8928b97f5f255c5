-- ===== src/Builder/Validation/Accepted.antt =====
-- What holds of a definition that `build` gives.
use tramli.Prelude.{
  String, ◌≡◌, refl, ap, ◌∙◌, subst, ℕ, suc, ◌≤◌, inl, inr, true, false, if◌then◌else◌, Option,
  none, some, List, [], ◌∷◌, length, truthy, Member, Option-cases,
}
use tramli.Types.{Transition}
use tramli.FlowDefinition.{FlowDefinition, SubDefinition}
use tramli.DataFlowGraph.{DataFlowGraph}
use tramli.Builder.{Builder}
use tramli.Builder.Definition.{build_internal, finalize}
use tramli.Builder.Checks.{
  check_branch_completeness, check_auto_external_conflict, check_sub_flow_exit_completeness,
}
use tramli.Builder.Distinct.{check_external_requires_distinct}
use tramli.Builder.Search.{Reaches}
use tramli.Builder.Reachability.{check_reachability}
use tramli.Builder.Reachability.Exact.{AllReachable, check_reachability_lem}
use tramli.Builder.Terminal.{
  Checked, reports, throws, terminal_of, tried_states, check_path_to_terminal,
}
use tramli.Builder.Terminal.Exact.{PathAnswer, check_path_to_terminal_lem}
use tramli.Builder.Dag.{check_dag}
use tramli.Builder.Dag.Exact.{Acyclic, check_dag_lem}
use tramli.Builder.Requires.{check_requires_produces}
use tramli.Builder.Requires.Ways.{Followed, Met}
use tramli.Builder.Requires.Provided.{check_requires_produces-Met}
use tramli.Builder.Outgoing.{
  check_terminal_no_outgoing, reported-nil, and_check-nil, Leaves,
  check_terminal_no_outgoing-Leaves,
}
use tramli.Builder.Nesting.{check_sub_flow_nesting_depth, check_sub_flow_circular_ref}
use tramli.Builder.Nesting.Chains.{
  Chain, Unrepeated, check_sub_flow_nesting_depth_lem, check_sub_flow_circular_ref_lem,
}
use tramli.Builder.Validation.{
  initial_errors, all_checks, checks_with, collect_errors, graph_of, Built, built, built_with,
  build_checked, build,
}

module _ (n : ℕ) (b : Builder (SubDefinition (suc n)))
    (d : FlowDefinition (SubDefinition (suc n))) where
  -- Each check reports nothing.
  pub record Accepted : Type 0 where
    pub root : String
    pub initial : truthy d.initial_state ≡ some root
    pub reachable : (if b.allow_unreachable then [] else check_reachability d) ≡ []
    pub ends : (if b.perpetual then reports [] else check_path_to_terminal d) ≡ reports []
    pub dag : check_dag d ≡ []
    pub distinct : check_external_requires_distinct d ≡ []
    pub branches : check_branch_completeness d ≡ []
    pub requires :
        check_requires_produces d b.initially_available_keys b.externally_provided_keys ≡ some []
    pub conflicts : check_auto_external_conflict d ≡ []
    pub outgoing : check_terminal_no_outgoing d ≡ reports []
    pub exits : check_sub_flow_exit_completeness d ≡ []
    pub depth : check_sub_flow_nesting_depth (suc n) d 0 ≡ []
    pub circular : check_sub_flow_circular_ref (suc n) d [] ≡ []

  initial_errors-nil :
      (o : Option String) → initial_errors o ≡ [] → (root : String) × (o ≡ some root)
  unfolding initial_errors
  initial_errors-nil none h = cc
  initial_errors-nil (some root) h = (root, refl)

  all_checks-Accepted :
      (required : List String)
      → check_requires_produces d b.initially_available_keys b.externally_provided_keys
        ≡ some required
      → all_checks n b d required ≡ reports []
      → Accepted
  unfolding all_checks
  all_checks-Accepted required e h =
      let (q0, h0) = reported-nil (initial_errors (truthy d.initial_state)) _ h in
      let (q1, h1) = reported-nil (if b.allow_unreachable then [] else check_reachability d) _ h0 in
      let (q2, h2) =
        and_check-nil (if b.perpetual then reports [] else check_path_to_terminal d) _ h1 in
      let (q3, h3) = reported-nil (check_dag d) _ h2 in
      let (q4, h4) = reported-nil (check_external_requires_distinct d) _ h3 in
      let (q5, h5) = reported-nil (check_branch_completeness d) _ h4 in
      let (q6, h6) = reported-nil required _ h5 in
      let (q7, h7) = reported-nil (check_auto_external_conflict d) _ h6 in
      let (q8, h8) = and_check-nil (check_terminal_no_outgoing d) _ h7 in
      let (q9, h9) = reported-nil (check_sub_flow_exit_completeness d) _ h8 in
      let (q10, h10) = reported-nil (check_sub_flow_nesting_depth (suc n) d 0) _ h9 in
      record {
        root = (initial_errors-nil (truthy d.initial_state) q0).0;
        initial = (initial_errors-nil (truthy d.initial_state) q0).1;
        reachable = q1;
        ends = q2;
        dag = q3;
        distinct = q4;
        branches = q5;
        requires = e ∙ ap some q6;
        conflicts = q7;
        outgoing = q8;
        exits = q9;
        depth = q10;
        circular = reports-injective h10;
      }
    where
      reports-injective : {xs : List String} → reports xs ≡ reports [] → xs ≡ []
      reports-injective p = cc

  collect_errors-Accepted : collect_errors n b d ≡ some (reports []) → Accepted
  unfolding collect_errors checks_with
  collect_errors-Accepted h =
      elim (Option-cases
        (check_requires_produces d b.initially_available_keys b.externally_provided_keys)) [
          | inl e ↦ absurd (not_none (rw e at h))
          | inr (required, e) ↦ all_checks-Accepted required e (some-injective (rw e at h))
        ]
    where
      not_none : ¬ none ≡ some (reports [])
      not_none p = cc

      some-injective : {c : Checked} → some c ≡ some (reports []) → c ≡ reports []
      some-injective p = cc

  -- What the checks promise of a definition.
  pub record Sound : Type 0 where
    pub root : String
    pub initial : truthy d.initial_state ≡ some root
    pub reachable : b.allow_unreachable ≡ false → AllReachable d
    pub ends :
        b.perpetual ≡ false
        → (s : String) × Reaches (tried_states d) root s × (terminal_of d s ≡ some true)
    pub dag : Acyclic d
    pub provided :
        (t : Transition (SubDefinition (suc n)))
        → Member t d.transitions
        → Followed d b.initially_available_keys b.externally_provided_keys root t.from
        → Met d b.initially_available_keys b.externally_provided_keys root t
    pub outgoing :
        (t : Transition (SubDefinition (suc n))) → Member t d.transitions → Leaves d.state_config t
    pub depth : (names : List String) → Chain (suc n) d names → length names ≤ 4
    pub circular : Unrepeated [] (suc n) d

  PathAnswer-found :
      (root : String)
      → PathAnswer d root (reports [])
      → (s : String) × Reaches (tried_states d) root s × (terminal_of d s ≡ some true)
  PathAnswer-found root (inl (q, h)) = h
  PathAnswer-found root (inr (inl (q, h))) = cc
  PathAnswer-found root (inr (inr (q, h))) = cc

  Accepted-Sound : Accepted → Sound
  Accepted-Sound a = record {
    root = a.root;
    initial = a.initial;
    reachable = λ e. (check_reachability_lem d).0 (rw e at a.reachable);
    ends = λ e. PathAnswer-found a.root (
        subst (PathAnswer d a.root) (rw e at a.ends)
          (check_path_to_terminal_lem d a.root a.initial).0);
    dag = (check_dag_lem d).0 a.dag;
    provided = λ t m r.
        check_requires_produces-Met d b.initially_available_keys b.externally_provided_keys a.root
          a.requires a.initial t m r;
    outgoing = λ t m. check_terminal_no_outgoing-Leaves d a.outgoing m;
    depth = (check_sub_flow_nesting_depth_lem (suc n) d).0 a.depth;
    circular = (check_sub_flow_circular_ref_lem (suc n) d).0 a.circular;
  }

-- A definition that building gives: it has an initial state; along transitions, exit mappings and error
-- transitions, every state that is not terminal is reached, unless unreachable states are allowed, and
-- some terminal state is, unless perpetual flows are; automatic and branch transitions form no cycle;
-- at the states that transitions, and error transitions of states that a transition with a processor
-- leaves, lead to (no exit mappings, no exception routes), each key that a transition requires arrives
-- along at least one such way, or with the transition's event, or, for branches and processors, from
-- its own guard; only sub-flows leave terminal states; sub-flows nest at most three deep, and no chain
-- of them repeats a name. The definition is the one that the checks saw, with its last fields set.
pub build-Sound :
    (n : ℕ) (b : Builder (SubDefinition (suc n))) (d : FlowDefinition (SubDefinition (suc n)))
    (g : DataFlowGraph)
    → build n b ≡ some (built d g)
    → Sound n b (build_internal b) × (d ≡ finalize b (build_internal b))
unfolding build build_checked built_with
build-Sound n b d g h = by_errors (collect_errors n b core) refl h
  where
    core : FlowDefinition (SubDefinition (suc n))
    core = build_internal b

    with_graph :
        (o : Option DataFlowGraph) → built_with n b core o ≡ some (built d g) → d ≡ finalize b core
    with_graph none p = cc
    with_graph (some graph) p = built-injective (some-injective p)
      where
        some-injective : {x y : Built n} → some x ≡ some y → x ≡ y
        some-injective q = cc

        built-injective : built (finalize b core) graph ≡ built d g → d ≡ finalize b core
        built-injective q = cc

    by_errors :
        (o : Option Checked)
        → collect_errors n b core ≡ o
        → build_checked n b core o ≡ some (built d g)
        → Sound n b core × (d ≡ finalize b core)
    by_errors none e p = cc
    by_errors (some (throws x)) e p = cc
    by_errors (some (reports (x ∷ xs))) e p = cc
    by_errors (some (reports [])) e p = (
      Accepted-Sound n b core (collect_errors-Accepted n b core e),
      with_graph (graph_of n b core) p,
    )
