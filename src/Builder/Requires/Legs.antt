-- ===== src/Builder/Requires/Legs.antt =====
-- The visits that follow from a state, and that the check of what is required always ends.
use tramli.Prelude.{
  String, ◌≡◌, ◌∙◌, refl, sym, ap, subst, true, ◌⊎◌, inl, inr, Option, none, some, List, [], ◌∷◌,
  truthy-eq-some, filter-Member, eq_refl, map, lookup, truthy, add_all, Option-cases, Member, here,
  there, Member-cons, Member-nil, Member-filter, Member-append_left, Member-append_right,
  Member-append_cases, ◌==◌,
}
use tramli.Types.{Transition, StateProcessor}
use tramli.FlowDefinition.{FlowDefinition, transitions_from}
use tramli.Pipeline.Available.{Member-add_all}
use tramli.Builder.Reachability.Exact.{lookup-values}
use tramli.Availability.{Seen, Leg}
use tramli.Availability.Measure.{Within}
use tramli.Availability.Ends.{LegsWithin, walk_ends}
use tramli.DataFlowGraph.{guard_produces, known_keys}
use tramli.DataFlowGraph.Build.{
  Member-map, produced_in-guard, available_through-known, initially-known,
}
use tramli.Builder.Requires.{
  main_leg, error_leg, error_leg_to, error_legs, legs_of, visited_states, requires_walk, errors_of,
  requires_from, check_requires_produces,
}

module _ {D : Type 0} (d : FlowDefinition D) where
  -- The processor of the transition may fail, and the flow is then led to `target`.
  abbrev pub Fails : Transition D → String → Type 0
  Fails t target =
      (p : StateProcessor) × (t.processor ≡ some p)
      × (truthy (lookup t.from d.error_transitions) ≡ some target)

  pub Member-transitions_from :
      (t : Transition D) → Member t d.transitions → Member t (transitions_from t.from d)
  unfolding transitions_from
  Member-transitions_from t m =
      filter-Member (λ u. u.from == t.from) d.transitions m (eq_refl t.from)

  pub from_state :
      (s : String) {t : Transition D}
      → Member t (transitions_from s d)
      → Member t d.transitions × ((t.from == s) ≡ true)
  unfolding transitions_from
  from_state s m = Member-filter (λ t. t.from == s) d.transitions m

  module _ (provided : List String) where
    -- The visit is the transition's own, or that of its failure.
    abbrev pub LegFrom : Transition D → Leg (List String) → Type 0
    LegFrom t l =
        (main_leg provided t ≡ l) ⊎ ((target : String) × Fails t target × (error_leg t target ≡ l))

    error_legs-Fails :
        (t : Transition D) {l : Leg (List String)}
        → Member l (error_legs d t t.processor)
        → (target : String) × Fails t target × (error_leg t target ≡ l)
    unfolding error_legs error_leg_to
    error_legs-Fails t m = elim (Option-cases t.processor) [
      | inl e ↦ absurd (Member-nil (rw (e, error_legs) at m))
      | inr (p, e) ↦ elim (Option-cases (truthy (lookup t.from d.error_transitions))) [
        | inl q ↦ absurd (Member-nil (rw (e, q, error_legs) at m))
        | inr (target, q) ↦ elim (Member-cons (rw (e, q, error_legs) at m)) [
          | inl r ↦ (target, (p, e, q), r)
          | inr n ↦ absurd (Member-nil n)
        ]
      ]
    ]

    failing :
        (t : Transition D) (target : String) (p : StateProcessor)
        → t.processor ≡ some p
        → truthy (lookup t.from d.error_transitions) ≡ some target
        → error_legs d t t.processor ≡ error_leg t target ∷ []
    unfolding error_legs error_leg_to
    failing t target p e r = ap (error_legs d t) e ∙ ap (error_leg_to t) r

    pub legs_of-LegFrom :
        (ts : List (Transition D)) {l : Leg (List String)}
        → Member l (legs_of d provided ts)
        → (t : Transition D) × Member t ts × LegFrom t l
    unfolding legs_of
    legs_of-LegFrom [] m = absurd (Member-nil m)
    legs_of-LegFrom (t ∷ ts) m = elim (Member-cons m) [
      | inl q ↦ (t, here, inl q)
      | inr n ↦ elim (Member-append_cases (error_legs d t t.processor) n) [
        | inl o ↦ (t, here, inr (error_legs-Fails t o))
        | inr o ↦ let (u, k, h) = legs_of-LegFrom ts o in (u, there k, h)
      ]
    ]

    pub LegFrom-legs_of :
        (ts : List (Transition D)) {t : Transition D} {l : Leg (List String)}
        → Member t ts
        → LegFrom t l
        → Member l (legs_of d provided ts)
    unfolding legs_of error_legs error_leg_to
    LegFrom-legs_of [] m h = absurd (Member-nil m)
    LegFrom-legs_of (t ∷ ts) here (inl q) =
        subst (λ z. Member z (legs_of d provided (t ∷ ts))) q here
    LegFrom-legs_of (t ∷ ts) here (inr (target, (p, e, r), q)) = there (
        Member-append_left _ (
          subst (λ z. Member z (error_legs d t t.processor)) q
            (subst (Member (error_leg t target)) (sym (failing t target p e r)) here)))
    LegFrom-legs_of (u ∷ ts) (there m) h =
        there (Member-append_right (error_legs d u u.processor) (LegFrom-legs_of ts m h))

  module _ (initially provided : List String) (root : String) where
    legs-within :
        LegsWithin
          (visited_states root d)
          (known_keys initially provided d)
          (λ s. legs_of d provided (transitions_from s d))
    unfolding visited_states known_keys main_leg error_leg
    legs-within s l m = by_cases made.2
      where
        made : (t : Transition D) × Member t (transitions_from s d) × LegFrom provided t l
        made = legs_of-LegFrom provided (transitions_from s d) m

        among : Member made.0 d.transitions
        among = (from_state s made.1).0

        Inside : Leg (List String) → Type 0
        Inside k =
            Member k.target (visited_states root d)
            × ((base acc : List String)
                → Within (known_keys initially provided d) base
                → Within (known_keys initially provided d) (k.flow base acc).0)

        by_cases : LegFrom provided made.0 l → Inside l
        by_cases (inl q) = subst Inside q (
          there (Member-append_left _ (Member-map (λ t. t.to) among)),
          λ base acc h. available_through-known d initially provided root made.0 base among h,
        )
        by_cases (inr (target, (p, e, r), q)) = subst Inside q (
          there (
              Member-append_right (map (λ t. t.to) d.transitions) (
                lookup-values made.0.from d.error_transitions
                  (truthy-eq-some (lookup made.0.from d.error_transitions) r))),
          λ base acc h k n. elim (Member-add_all (guard_produces made.0) base n) [
            | inl o ↦
                Member-append_right initially
                  (Member-append_right provided (produced_in-guard d.transitions among o))
            | inr o ↦ h k o
          ],
        )

    pub requires_walk-ends :
        (s : Seen) × (errors : List String) × (requires_walk d initially provided root
          ≡ some (s, errors))
    unfolding requires_walk visited_states known_keys
    requires_walk-ends =
        let (s, errors, e, _) =
          walk_ends (visited_states root d) (known_keys initially provided d)
            (λ s. legs_of d provided (transitions_from s d)) legs-within root (add_all initially [])
            [] here (initially-known d initially provided) in
        (s, errors, e)

  -- The check of what is required always ends, also where the transitions form cycles.
  pub check_requires_produces-returns :
      (initially provided : List String)
      → (errors : List String) × (check_requires_produces d initially provided ≡ some errors)
  unfolding check_requires_produces requires_from errors_of
  check_requires_produces-returns initially provided = by_root (truthy d.initial_state)
    where
      by_root :
          (o : Option String)
          → (errors : List String) × (requires_from d initially provided o ≡ some errors)
      by_root none = ([], refl)
      by_root (some root) =
          let (s, errors, e) = requires_walk-ends initially provided root in (errors, rw e refl)
