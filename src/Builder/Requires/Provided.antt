-- ===== src/Builder/Requires/Provided.antt =====
-- What `checkRequiresProduces` promises.
use tramli.Prelude.{
  append-eq-nil, String, suc, length, ◌≡◌, refl, sym, ap, ◌∙◌, subst, inl, inr, some, List, [], ◌∷◌,
  ◌++◌, contains, truthy, add_all, Bool-cases, Member, Member-cons, Member-nil,
}
use tramli.Types.{Transition, TransitionGuard, BranchProcessor, StateProcessor}
use tramli.FlowDefinition.{FlowDefinition, transitions_from}
use tramli.Pipeline.Available.{Member-add_all, contains-Member}
use tramli.Availability.{Seen, Leg, budget}
use tramli.Availability.Entering.{recorded, Known}
use tramli.Availability.Settled.{Settled, walk-Settled}
use tramli.Availability.Justified.{AllArrive, Justified, recorded-AllArrive, walk-Justified}
use tramli.DataFlowGraph.{known_keys}
use tramli.Builder.Requires.{
  visited_states, require_errors, guard_needs, branch_needs, processor_needs, at_event, past_guard,
  transition_errors, main_leg, error_leg, legs_of, requires_walk, errors_of, requires_from,
  check_requires_produces,
}
use tramli.Builder.Requires.Legs.{
  LegFrom, legs_of-LegFrom, LegFrom-legs_of, Member-transitions_from, requires_walk-ends,
}
use tramli.Builder.Requires.Ways.{
  Followed, start, along, failing, Arrives, AtGuard, PastGuard, Met, at_event-AtGuard,
  past_guard-PastGuard, legs-Arrive,
}

require_errors-nil :
    (who : String) (available reqs : List String) {k : String}
    → require_errors who available reqs ≡ []
    → Member k reqs
    → Member k available
unfolding require_errors
require_errors-nil who available [] h m = absurd (Member-nil m)
require_errors-nil who available (req ∷ reqs) {k} h m = elim (Bool-cases (contains req available)) [
  | inl e ↦ elim (Member-cons m) [
    | inl q ↦ subst (λ z. Member z available) q (contains-Member req available e)
    | inr n ↦ require_errors-nil who available reqs (rw e at h) n
  ]
  | inr e ↦ absurd (not_nil (rw e at h))
]
  where
    not_nil : {x : String} {xs : List String} → ¬ (x ∷ xs) ≡ []
    not_nil q = cc

module _ {D : Type 0} (d : FlowDefinition D) (initially provided : List String)
    (root : String) where
  abbrev ToState : String → Type 0
  ToState = Followed d initially provided root

  abbrev ToKey : String → String → Type 0
  ToKey = Arrives d initially provided root

  -- No errors came before, and this visit adds none.
  abbrev Fine : Leg (List String) → List String → Type 0
  Fine l base = (l.flow base []).1 ≡ []

  legs-Fine :
      (s : String) (l : Leg (List String)) (base errors : List String)
      → Member l (legs_of d provided (transitions_from s d))
      → (l.flow base errors).1 ≡ []
      → (errors ≡ []) × Fine l base
  unfolding main_leg error_leg
  legs-Fine s l base errors m = by_cases (legs_of-LegFrom d provided (transitions_from s d) m).2
    where
      Splits : Leg (List String) → Type 0
      Splits k = (k.flow base errors).1 ≡ [] → (errors ≡ []) × Fine k base

      by_cases :
          LegFrom d provided (legs_of-LegFrom d provided (transitions_from s d) m).0 l → Splits l
      by_cases (inl q) = subst Splits q (λ h. append-eq-nil errors _ h)
      by_cases (inr (target, f, q)) = subst Splits q (λ h. (h, refl))

  abbrev Walked : Seen → Type 0
  Walked seen =
      Justified ToState ToKey seen
      × Known root seen
      × ((u : String)
          → Known u seen
          → Settled (λ s. legs_of d provided (transitions_from s d)) (λ e. e ≡ []) Fine legs-Fine u
              seen)

  requires_walk-Walked :
      (seen : Seen) (errors : List String)
      → requires_walk d initially provided root ≡ some (seen, errors)
      → errors ≡ []
      → Walked seen
  unfolding requires_walk
  requires_walk-Walked seen errors e good =
      let (known, settled) =
        walk-Settled (λ s. legs_of d provided (transitions_from s d)) (λ e. e ≡ []) Fine legs-Fine
          (suc (budget (visited_states root d) (length (known_keys initially provided d)))) root
          (add_all initially []) [] seen errors e good in
      (
        walk-Justified ToState ToKey (λ s. legs_of d provided (transitions_from s d))
            (legs-Arrive d initially provided root)
            (suc (budget (visited_states root d) (length (known_keys initially provided d)))) root
            (add_all initially []) [] seen errors Followed.start from_start e,
        known,
        settled,
      )
    where
      from_start : AllArrive ToState ToKey root (add_all initially [])
      from_start k m = elim (Member-add_all initially [] m) [
        | inl l ↦ Arrives.initial l
        | inr n ↦ absurd (Member-nil n)
      ]

  leg_among :
      (t : Transition D) {l : Leg (List String)}
      → Member t d.transitions
      → LegFrom d provided t l
      → Member l (legs_of d provided (transitions_from t.from d))
  leg_among t m h =
      LegFrom-legs_of d provided (transitions_from t.from d) (Member-transitions_from d t m) h

  ToState-Known : (seen : Seen) {u : String} → Walked seen → ToState u → Known u seen
  unfolding main_leg error_leg
  ToState-Known seen w start = w.1
  ToState-Known seen w (along t m r) =
      (w.2 t.from (ToState-Known seen w r) (main_leg provided t) (leg_among t m (inl refl))).1
  ToState-Known seen w (failing t {target} m f r) =
      (w.2 t.from (ToState-Known seen w r) (error_leg t target)
        (leg_among t m (inr (target, f, refl)))).1

  transition_errors-Met :
      (t : Transition D) (base : List String)
      → AllArrive ToState ToKey t.from base
      → transition_errors provided t base ≡ []
      → Met d initially provided root t
  unfolding transition_errors guard_needs branch_needs processor_needs
  transition_errors-Met t base h e = (by_guard, by_branch, by_processor)
    where
      parts :
          (guard_needs t t.guard (at_event provided t base) ≡ [])
          × (branch_needs t t.branch (past_guard provided t base)
                ++ processor_needs t t.processor (past_guard provided t base)
              ≡ [])
      parts = append-eq-nil (guard_needs t t.guard (at_event provided t base)) _ e

      rest :
          (branch_needs t t.branch (past_guard provided t base) ≡ [])
          × (processor_needs t t.processor (past_guard provided t base) ≡ [])
      rest = append-eq-nil (branch_needs t t.branch (past_guard provided t base)) _ parts.1

      by_guard :
          (g : TransitionGuard) (k : String)
          → t.guard ≡ some g
          → Member k g.requires
          → AtGuard d initially provided root t k
      by_guard g k q m = at_event-AtGuard d initially provided root t base h (
          require_errors-nil _ (at_event provided t base) g.requires
            (sym (ap (λ o. guard_needs t o (at_event provided t base)) q) ∙ parts.0) m)

      by_branch :
          (b : BranchProcessor) (k : String)
          → t.branch ≡ some b
          → Member k b.requires
          → PastGuard d initially provided root t k
      by_branch b k q m = past_guard-PastGuard d initially provided root t base h (
          require_errors-nil _ (past_guard provided t base) b.requires
            (sym (ap (λ o. branch_needs t o (past_guard provided t base)) q) ∙ rest.0) m)

      by_processor :
          (p : StateProcessor) (k : String)
          → t.processor ≡ some p
          → Member k p.requires
          → PastGuard d initially provided root t k
      by_processor p k q m = past_guard-PastGuard d initially provided root t base h (
          require_errors-nil _ (past_guard provided t base) p.requires
            (sym (ap (λ o. processor_needs t o (past_guard provided t base)) q) ∙ rest.1) m)

  Walked-Met :
      (seen : Seen) (t : Transition D)
      → Walked seen
      → Member t d.transitions
      → ToState t.from
      → Met d initially provided root t
  unfolding main_leg
  Walked-Met seen t w m r =
      transition_errors-Met t (recorded t.from seen)
        (recorded-AllArrive ToState ToKey seen t.from w.0)
        (w.2 t.from (ToState-Known seen w r) (main_leg provided t) (leg_among t m (inl refl))).0

-- Where the check of what is required reports nothing: take a state that transitions lead to from the
-- initial state, or the error transitions of states that a transition with a processor leaves (exit
-- mappings, exception routes and other error transitions are not followed). Each key that a transition
-- requires there arrives along at least one such way, or is brought by the transition's event, or, for
-- branches and processors, is produced by its own guard.
pub check_requires_produces-Met :
    {D : Type 0} (d : FlowDefinition D) (initially provided : List String) (root : String)
    → check_requires_produces d initially provided ≡ some []
    → truthy d.initial_state ≡ some root
    → (t : Transition D) → Member t d.transitions
    → Followed d initially provided root t.from
    → Met d initially provided root t
unfolding check_requires_produces requires_from errors_of
check_requires_produces-Met {D} d initially provided root accepted initial_is t m r =
    let (seen, errors, e) = requires_walk-ends d initially provided root in
    Walked-Met d initially provided root seen t
      (requires_walk-Walked d initially provided root seen errors e (no_errors seen errors e)) m r
  where
    no_errors :
        (seen : Seen) (errors : List String)
        → requires_walk d initially provided root ≡ some (seen, errors)
        → errors ≡ []
    no_errors seen errors e =
        let p : some errors ≡ some [] =
          sym (
            ap (requires_from d initially provided) initial_is
            ∙ ap (errors_of d initially provided) e)
          ∙ accepted in
        cc
