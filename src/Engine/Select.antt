-- ===== src/Engine/Select.antt =====
-- The choice of an external transition by the keys of the data (`selectExternalTransition` of
-- lang/ts/src/flow-engine.ts).
pub mod Choice
pub mod Strict
use tramli.Prelude.{
  String, ◌<>◌, ℕ, nat_eq, Bool, false, is_some, Option, none, some, List, [], ◌∷◌, length, filter,
  all, contains, max,
}
use tramli.FlowError.{Error, flow_error}
use tramli.Types.{Transition}

pub data Selection (D : Type 0) : Type 0 where
  selected : Transition D → Selection D
  refused : Error → Selection D

module _ {D : Type 0} where
  -- `ext.guard?.externalTrigger`
  unfoldable pub trigger_of : Transition D → Option String
  trigger_of t = elim t.guard [ none ↦ none | some g ↦ g.external_trigger ]

  unfoldable pub is_explicit : Transition D → Bool
  unfolding trigger_of
  is_explicit t = is_some (trigger_of t)

  -- `dataKeys.has(ext.guard!.externalTrigger)`
  unfoldable pub trigger_given : List String → Transition D → Bool
  unfolding trigger_of
  trigger_given given t = elim (trigger_of t) [ none ↦ false | some k ↦ contains k given ]

  -- `ext.guard?.requires.every(r => dataKeys.has(r)) ?? false`
  unfoldable pub requires_given : List String → Transition D → Bool
  requires_given given t = elim t.guard [
    | none ↦ false
    | some g ↦ all (λ r. contains r given) g.requires
  ]

  unfoldable pub specificity : Transition D → ℕ
  specificity t = elim t.guard [ none ↦ 0 | some g ↦ length g.requires ]

  -- `Math.max(...)` over the matches
  unfoldable pub max_specificity : List (Transition D) → ℕ
  unfolding specificity
  max_specificity [] = 0
  max_specificity (t ∷ ts) = max (specificity t) (max_specificity ts)

  unfoldable pub most_specific : List (Transition D) → List (Transition D)
  unfolding max_specificity
  most_specific ms = filter (λ t. nat_eq (specificity t) (max_specificity ms)) ms

  pick_explicit : List (Transition D) → String → Selection D
  pick_explicit [] state = refused (
      flow_error "EXTERNAL_EVENT_NOT_MATCHED"
        ("External event did not match a trigger at state " <> state))
  pick_explicit (t ∷ []) state = selected t
  pick_explicit (t ∷ u ∷ ts) state = refused (
      flow_error "EXTERNAL_EVENT_AMBIGUOUS"
        ("External event matched multiple triggers at state " <> state))

  pick_specific : List (Transition D) → String → Selection D
  pick_specific (t ∷ []) state = selected t
  pick_specific _ state = refused (
      flow_error "EXTERNAL_EVENT_AMBIGUOUS"
        ("External event matched multiple equally specific guards at state " <> state))

  pick_match : List (Transition D) → String → Selection D
  unfolding pick_specific most_specific
  pick_match [] state = refused (
      flow_error "EXTERNAL_EVENT_NOT_MATCHED"
        ("External event did not satisfy any guard requirements at state " <> state))
  pick_match (t ∷ ts) state = pick_specific (most_specific (t ∷ ts)) state

  pick_legacy : List (Transition D) → List String → String → Selection D
  unfolding pick_match requires_given
  pick_legacy (t ∷ []) given state = selected t
  pick_legacy ts given state = pick_match (filter (requires_given given) ts) state

  select_from : List (Transition D) → List (Transition D) → List String → String → Selection D
  unfolding pick_explicit pick_legacy trigger_given
  select_from [] externals given state = pick_legacy externals given state
  select_from (t ∷ ts) externals given state =
      pick_explicit (filter (trigger_given given) (t ∷ ts)) state

  -- By trigger where some transition has one, else by the most specific requirements that are met.
  unfoldable pub select_external : List (Transition D) → List String → String → Selection D
  unfolding select_from is_explicit
  select_external externals given state =
      select_from (filter is_explicit externals) externals given state
