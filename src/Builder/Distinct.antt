-- ===== src/Builder/Distinct.antt =====
-- The check that an event cannot fit two external transitions alike (`checkExternalRequiresDistinct`
-- of lang/ts/src/flow-definition.ts).
pub mod Routing
use tramli.Prelude.{
  String, ◌<>◌, ℕ, nat_eq, ltb, Bool, true, false, ◌&&◌, ◌||◌, not, if◌then◌else◌, Option, none,
  some, get_or, List, [], ◌∷◌, ◌++◌, all, filter, length, contains, add, add_all,
}
use tramli.Types.{Transition, TransitionGuard}
use tramli.FlowDefinition.{FlowDefinition, externals_from, all_states}
use tramli.Engine.Select.{trigger_of, is_explicit}

-- `triggers` are the triggers that were seen before.
unfoldable pub duplicate_errors : String → List String → List String → List String
duplicate_errors state triggers [] = []
duplicate_errors state triggers (trigger ∷ rest) =
    let later = duplicate_errors state (add trigger triggers) rest in
    if contains trigger triggers
    then ("State " <> state <> " has duplicate external trigger " <> trigger) ∷ later
    else later

-- The two lists have the same elements.
unfoldable pub identical_requires : List String → List String → Bool
identical_requires first second =
    nat_eq (length (add_all first [])) (length (add_all second []))
    && all (λ r. contains r (add_all second [])) (add_all first [])

guard_pair_errors : String → Option TransitionGuard → Option TransitionGuard → List String
guard_pair_errors state (some first) (some second) =
    if identical_requires first.requires second.requires
    then ("State " <> state <> " has ambiguous external guards '" <> first.name <> "' and '"
        <> second.name <> "' with identical requires sets")
      ∷ []
    else []
guard_pair_errors state _ _ = []

module _ {D : Type 0} where
  pair_errors : String → Transition D → List (Transition D) → List String
  unfolding guard_pair_errors
  pair_errors state t [] = []
  pair_errors state t (u ∷ us) = guard_pair_errors state t.guard u.guard ++ pair_errors state t us

  all_pair_errors : String → List (Transition D) → List String
  unfolding pair_errors
  all_pair_errors state [] = []
  all_pair_errors state (t ∷ ts) = pair_errors state t ts ++ all_pair_errors state ts

  -- `transition.guard!.externalTrigger`, of the transitions that have one
  unfoldable pub triggers_in : List (Transition D) → List String
  triggers_in [] = []
  triggers_in (t ∷ ts) = elim (trigger_of t) [ none ↦ triggers_in ts | some k ↦ k ∷ triggers_in ts ]

  unfoldable pub distinct_errors_at :
      String → List (Transition D) → List (Transition D) → List String
  unfolding all_pair_errors
  distinct_errors_at state externals explicit =
      if ltb (length externals) 2
      then []
      else if ltb 0 (length explicit) && ltb (length explicit) (length externals)
      then ("State " <> state <> " mixes explicit and legacy external routing") ∷ []
      else if nat_eq (length explicit) (length externals)
      then duplicate_errors state [] (triggers_in explicit)
      else all_pair_errors state externals

  unfoldable pub distinct_errors : FlowDefinition D → List String → List String
  distinct_errors d [] = []
  distinct_errors d (state ∷ states) =
      let externals = externals_from state d in
      distinct_errors_at state externals (filter is_explicit externals) ++ distinct_errors d states

  unfoldable pub check_external_requires_distinct : FlowDefinition D → List String
  check_external_requires_distinct d = distinct_errors d (all_states d)
