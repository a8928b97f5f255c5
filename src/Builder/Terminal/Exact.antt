-- ===== src/Builder/Terminal/Exact.antt =====
-- The check for a path to a terminal state gives the whole truth.
use tramli.Prelude.{
  String, ◌<>◌, ◌≡◌, refl, sym, ◌∙◌, true, false, ◌⊎◌, inl, inr, none, some, List, [], ◌∷◌, ◌++◌,
  truthy, lookup, values, Member, Member-append_cases, Member-append_left, Member-append_right,
  Option-cases, Member-cons, Member-nil, subst, ◌==◌,
}
use tramli.FlowError.{type_error}
use tramli.FlowDefinition.{FlowDefinition, transitions_from}
use tramli.Builder.Reachability.{targets_of, error_target_of}
use tramli.Builder.Reachability.Exact.{filter-targets, lookup-values}
use tramli.Builder.Search.{Reaches}
use tramli.Builder.Terminal.{
  Walk, found, exhausted, crashed, terminal_of, tried_states, possible_states, terminal_walk,
  Checked, reports, throws, path_errors, path_from, check_path_to_terminal,
}
use tramli.Builder.Terminal.Search.{Answers, can_reach_terminal-Answers}

error_target_of-values :
    {y : String} (k : String) (m : List (String × String))
    → Member y (error_target_of (lookup k m))
    → Member y (values m)
unfolding error_target_of
error_target_of-values {y} k m h = elim (Option-cases (lookup k m)) [
  | inl e ↦ absurd (Member-nil (rw e at h))
  | inr (z, e) ↦ elim (Member-cons (rw e at h)) [
    | inl q ↦ subst (λ z. Member z (values m)) q (lookup-values k m e)
    | inr n ↦ absurd (Member-nil n)
  ]
]

module _ {D : Type 0} (d : FlowDefinition D) where
  tried_states-possible :
      (x y : String)
      → Member y (tried_states d x)
      → Member y (targets_of d.transitions ++ values d.error_transitions)
  unfolding tried_states transitions_from
  tried_states-possible x y m = elim (Member-append_cases (targets_of (transitions_from x d)) m) [
    | inl l ↦ Member-append_left _ (filter-targets (λ t. t.from == x) d.transitions l)
    | inr r ↦
        Member-append_right (targets_of d.transitions)
          (error_target_of-values x d.error_transitions r)
  ]

  terminal_walk-Answers :
      (root : String) → Answers (terminal_of d) (tried_states d) root (terminal_walk d root)
  unfolding terminal_walk possible_states
  terminal_walk-Answers root =
      can_reach_terminal-Answers (terminal_of d) (tried_states d)
        (targets_of d.transitions ++ values d.error_transitions) root tried_states-possible

  -- No error, and a terminal state that the root reaches; the error, and no such state; or a throw,
  -- and a state that the root reaches and that is not configured.
  abbrev pub PathAnswer : String → Checked → Type 0
  PathAnswer root c =
      ((c ≡ reports [])
        × ((s : String) × Reaches (tried_states d) root s × (terminal_of d s ≡ some true)))
      ⊎ ((c ≡ reports (("No path from " <> root <> " to any terminal state") ∷ []))
          × ((s : String) → Reaches (tried_states d) root s → terminal_of d s ≡ some false))
      ⊎ ((c ≡ throws (type_error "terminal"))
          × ((s : String) × Reaches (tried_states d) root s × (terminal_of d s ≡ none)))

  path_errors-PathAnswer :
      (root : String) (w : Walk)
      → Answers (terminal_of d) (tried_states d) root w
      → PathAnswer root (path_errors root w)
  unfolding path_errors
  path_errors-PathAnswer root found h = inl (refl, h)
  path_errors-PathAnswer root (exhausted visited) h = inr (inl (refl, h))
  path_errors-PathAnswer root (crashed s) (r, k) = inr (inr (refl, (s, r, k)))

  -- The answer, and what decides it: where all that the root reaches is configured, the check
  -- reports nothing as soon as a terminal state is reached, and else the missing path.
  abbrev pub PathExact : String → Checked → Type 0
  PathExact root c =
      PathAnswer root c
      × (((s : String) → Reaches (tried_states d) root s → ¬ terminal_of d s ≡ none)
          → (s : String) → Reaches (tried_states d) root s
          → terminal_of d s ≡ some true
          → c ≡ reports [])
      × (((s : String) → Reaches (tried_states d) root s → terminal_of d s ≡ some false)
          → c ≡ reports (("No path from " <> root <> " to any terminal state") ∷ []))

  PathAnswer-PathExact : (root : String) (c : Checked) → PathAnswer root c → PathExact root c
  PathAnswer-PathExact root c answer = (answer, where_configured answer, where_missing answer)
    where
      where_configured :
          PathAnswer root c
          → ((s : String) → Reaches (tried_states d) root s → ¬ terminal_of d s ≡ none)
          → (s : String) → Reaches (tried_states d) root s
          → terminal_of d s ≡ some true
          → c ≡ reports []
      where_configured (inl (q, h)) configured s r k = q
      where_configured (inr (inl (q, h))) configured s r k =
          let p : some true ≡ some false = sym k ∙ h s r in cc
      where_configured (inr (inr (q, (u, r, k)))) configured s r2 k2 = absurd (configured u r k)

      where_missing :
          PathAnswer root c
          → ((s : String) → Reaches (tried_states d) root s → terminal_of d s ≡ some false)
          → c ≡ reports (("No path from " <> root <> " to any terminal state") ∷ [])
      where_missing (inl (q, (s, r, k))) h = let p : some true ≡ some false = sym k ∙ h s r in cc
      where_missing (inr (inl (q, h))) h2 = q
      where_missing (inr (inr (q, (s, r, k)))) h = let p : none ≡ some false = sym k ∙ h s r in cc

  -- The check of the path to a terminal state, along transitions, exit mappings and error transitions
  -- from the initial state, reports nothing only where a terminal state is reached, reports the missing
  -- path exactly where all that is reached is configured and not terminal, and throws only where a
  -- state is reached that is not configured; where all that is reached is configured, it reports
  -- nothing exactly when a terminal state is reached.
  pub check_path_to_terminal_lem :
      (root : String)
      → truthy d.initial_state ≡ some root
      → PathExact root (check_path_to_terminal d)
  unfolding check_path_to_terminal path_from
  check_path_to_terminal_lem root e = PathAnswer-PathExact root (check_path_to_terminal d) (
      rw (e, check_path_to_terminal, path_from)
        (path_errors-PathAnswer root (terminal_walk d root) (terminal_walk-Answers root)))
