-- ===== src/Builder/Reachability/Exact.antt =====
-- The check reports exactly the states that are neither terminal nor reachable.
use tramli.Prelude.{
  String, ◌≡◌, refl, ap, ◌∙◌, subst, Bool, true, false, ◌&&◌, not, inl, inr, ◌↔◌, ◌==◌, some, List,
  [], ◌∷◌, ◌++◌, contains, truthy, Dict, lookup, values, filter, Member, here, there, Member-cons,
  Member-nil, Member-append_left, Member-append_right, Member-append_cases, Bool-cases,
  Option-cases, arith, truthy-eq-some,
}
use tramli.Types.{StateConfig, Transition}
use tramli.FlowDefinition.{FlowDefinition, transitions_from}
use tramli.Builder.Search.{Reaches}
use tramli.Builder.Search.Complete.{search_lem}
use tramli.Pipeline.Available.{contains-Member, Member-contains}
use tramli.Builder.Reachability.{
  exit_targets, targets_of, error_target_of, next_states, visited_from, unreachable_errors,
  reachability_from, check_reachability,
}

pub lookup-values :
    {y : String} (k : String) (m : Dict String) → lookup k m ≡ some y → Member y (values m)
unfolding lookup values
lookup-values k [] h = cc
lookup-values {y} k ((j, v) ∷ m) h = elim (Bool-cases (j == k)) [
  | inl e ↦ let same : v ≡ y = ground arith in subst (λ z. Member z (v ∷ values m)) same here
  | inr e ↦ there (lookup-values k m (rw e at h))
]

error_target-values :
    {y : String} (k : String) (m : Dict String)
    → Member y (error_target_of (truthy (lookup k m)))
    → Member y (values m)
unfolding error_target_of
error_target-values {y} k m h = elim (Option-cases (truthy (lookup k m))) [
  | inl e ↦ absurd (Member-nil (rw e at h))
  | inr (z, e) ↦ elim (Member-cons (rw e at h)) [
    | inl q ↦ subst (λ z. Member z (values m)) q (lookup-values k m (truthy-eq-some (lookup k m) e))
    | inr n ↦ absurd (Member-nil n)
  ]
]

cons_not_nil : {x : String} {xs : List String} → ¬ x ∷ xs ≡ []
cons_not_nil h = cc

unreachable_errors-nil :
    (root : String) (visited : List String) (config : Dict StateConfig)
    → unreachable_errors root visited config ≡ []
    → (s : String) (cfg : StateConfig) → Member (s, cfg) config
    → cfg.terminal ≡ false
    → Member s visited
unfolding unreachable_errors
unreachable_errors-nil root visited [] h s cfg m q = absurd (Member-nil m)
unreachable_errors-nil root visited ((j, c) ∷ config) h s cfg m q =
    elim (Bool-cases (not (contains j visited) && not c.terminal)) [
      | inl e ↦ absurd (cons_not_nil (rw e at h))
      | inr e ↦ elim (Member-cons m) [
        | inl p ↦
            let going : c.terminal ≡ false = ap (λ z. z.1.terminal) p ∙ q in
            let seen : contains j visited ≡ true = ground arith in
            subst (λ z. Member z visited) (ap (λ z. z.0) p) (contains-Member j visited seen)
        | inr n ↦ unreachable_errors-nil root visited config (rw e at h) s cfg n q
      ]
    ]

nil-unreachable_errors :
    (root : String) (visited : List String) (config : Dict StateConfig)
    → ((s : String) (cfg : StateConfig)
        → Member (s, cfg) config
        → cfg.terminal ≡ false
        → Member s visited)
    → unreachable_errors root visited config ≡ []
unfolding unreachable_errors
nil-unreachable_errors root visited [] h = refl
nil-unreachable_errors root visited ((j, c) ∷ config) h =
    let rest = nil-unreachable_errors root visited config (λ s cfg m q. h s cfg (there m) q) in
    elim (Bool-cases c.terminal) [
      | inl e ↦ ground arith
      | inr e ↦ let seen = Member-contains (h j c here e) in ground arith
    ]

module _ {D : Type 0} where
  pub filter-targets :
      {y : String} (p : Transition D → Bool) (ts : List (Transition D))
      → Member y (targets_of (filter p ts))
      → Member y (targets_of ts)
  unfolding targets_of
  filter-targets p [] m = m
  filter-targets p (t ∷ ts) m = elim (Bool-cases (p t)) [
    | inl e ↦
        elim (Member-append_cases (exit_targets t t.exit_mappings) (rw (e, targets_of) at m)) [
          | inl l ↦ Member-append_left _ l
          | inr r ↦ Member-append_right (exit_targets t t.exit_mappings) (filter-targets p ts r)
        ]
    | inr e ↦ Member-append_right (exit_targets t t.exit_mappings) (filter-targets p ts (rw e at m))
  ]

  next_states-Member :
      (d : FlowDefinition D) (x y : String)
      → Member y (next_states d x)
      → Member y (targets_of d.transitions ++ values d.error_transitions)
  unfolding next_states transitions_from
  next_states-Member d x y m = elim (Member-append_cases (targets_of (transitions_from x d)) m) [
    | inl l ↦ Member-append_left _ (filter-targets _ d.transitions l)
    | inr r ↦
        Member-append_right (targets_of d.transitions) (error_target-values x d.error_transitions r)
  ]

  -- Every state that is not terminal can be reached from the initial state, if there is one.
  abbrev pub AllReachable : FlowDefinition D → Type 0
  AllReachable d =
      (root s : String) (cfg : StateConfig)
      → truthy d.initial_state ≡ some root
      → Member (s, cfg) d.state_config
      → cfg.terminal ≡ false
      → Reaches (next_states d) root s

  -- The check reports nothing exactly when every state that is not terminal can be reached from the
  -- initial state along transitions, exit mappings and error transitions, or no initial state is
  -- marked.
  pub check_reachability_lem : (d : FlowDefinition D) → (check_reachability d ≡ []) ↔ AllReachable d
  unfolding check_reachability reachability_from
  check_reachability_lem d = (reports_nothing, all_reachable)
    where
      visited_lem :
          (root x : String) → Member x (visited_from d root) ↔ Reaches (next_states d) root x
      visited_lem root x =
          unfold visited_from in
          (search_lem (next_states d) (targets_of d.transitions ++ values d.error_transitions) root
            x (next_states-Member d))

      reports_nothing : check_reachability d ≡ [] → AllReachable d
      reports_nothing h root s cfg q m going = (visited_lem root s).0 (
          unreachable_errors-nil root (visited_from d root) d.state_config
            (rw (q, check_reachability) at h) s cfg m going)

      all_reachable : AllReachable d → check_reachability d ≡ []
      all_reachable h = elim (Option-cases (truthy d.initial_state)) [
        | inl e ↦ rw (e, check_reachability) refl
        | inr (root, e) ↦
            rw (e, check_reachability)
              (nil-unreachable_errors root (visited_from d root) d.state_config
                (λ s cfg m going. (visited_lem root s).1 (h root s cfg e m going)))
      ]
