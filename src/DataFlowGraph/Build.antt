-- ===== src/DataFlowGraph/Build.antt =====
-- `build` always gives a graph.
use tramli.Prelude.{
  String, ◌≡◌, refl, sym, subst, Bool, true, false, if◌then◌else◌, inl, inr, Option, none, some,
  List, [], ◌∷◌, map, truthy, add_all, Member, here, there, Member-cons, Member-nil, Member-filter,
  Member-append_left, Member-append_right, ◌==◌,
}
use tramli.Types.{Transition, is_external}
use tramli.FlowDefinition.{FlowDefinition, transitions_from}
use tramli.Pipeline.Available.{Member-add_all}
use tramli.Availability.{Seen}
use tramli.Availability.Measure.{Within}
use tramli.Availability.Ends.{LegsWithin, walk_ends}
use tramli.DataFlowGraph.{
  DataFlowGraph, Collected, guard_produces, processor_produces, available_through, leg_of,
  met_states, produced_in, known_keys, nothing_collected, traverse, finish, graph_from, build,
}

pub map-Member :
    {A B : Type 0} (f : A → B) (xs : List A) {y : B}
    → Member y (map f xs)
    → (x : A) × Member x xs × (f x ≡ y)
map-Member f [] m = absurd (Member-nil m)
map-Member f (x ∷ xs) m = elim (Member-cons m) [
  | inl q ↦ (x, here, q)
  | inr n ↦ let (z, k, q) = map-Member f xs n in (z, there k, q)
]

pub Member-map :
    {A B : Type 0} (f : A → B) {x : A} {xs : List A} → Member x xs → Member (f x) (map f xs)
Member-map f here = here
Member-map f (there m) = there (Member-map f m)

module _ {D : Type 0} where
  pub produced_in-guard :
      (ts : List (Transition D)) {t : Transition D} {k : String}
      → Member t ts
      → Member k (guard_produces t)
      → Member k (produced_in ts)
  unfolding produced_in
  produced_in-guard [] m k = absurd (Member-nil m)
  produced_in-guard (u ∷ ts) {t} {k} m n = elim (Member-cons m) [
    | inl q ↦ Member-append_left _ (subst (λ z. Member k (guard_produces z)) (sym q) n)
    | inr l ↦
        Member-append_right (guard_produces u)
          (Member-append_right (processor_produces u) (produced_in-guard ts l n))
  ]

  produced_in-processor :
      (ts : List (Transition D)) {t : Transition D} {k : String}
      → Member t ts
      → Member k (processor_produces t)
      → Member k (produced_in ts)
  unfolding produced_in
  produced_in-processor [] m k = absurd (Member-nil m)
  produced_in-processor (u ∷ ts) {t} {k} m n = elim (Member-cons m) [
    | inl q ↦
        Member-append_right (guard_produces u)
          (Member-append_left _ (subst (λ z. Member k (processor_produces z)) (sym q) n))
    | inr l ↦
        Member-append_right (guard_produces u)
          (Member-append_right (processor_produces u) (produced_in-processor ts l n))
  ]

  pub initially-known :
      (d : FlowDefinition D) (initially provided : List String)
      → Within (known_keys initially provided d) (add_all initially [])
  unfolding known_keys
  initially-known d initially provided k m = elim (Member-add_all initially [] m) [
    | inl l ↦ Member-append_left _ l
    | inr n ↦ absurd (Member-nil n)
  ]

  module _ (d : FlowDefinition D) (initially provided : List String) (root : String) where
    provided-known :
        (external : Bool) (base : List String)
        → Within (known_keys initially provided d) base
        → Within
            (known_keys initially provided d)
            (if external then add_all provided base else base)
    unfolding known_keys
    provided-known false base h k n = h k n
    provided-known true base h k n = elim (Member-add_all provided base n) [
      | inl l ↦ Member-append_right initially (Member-append_left _ l)
      | inr o ↦ h k o
    ]

    pub available_through-known :
        (t : Transition D) (base : List String)
        → Member t d.transitions
        → Within (known_keys initially provided d) base
        → Within (known_keys initially provided d) (available_through provided t base)
    unfolding available_through known_keys
    available_through-known t base among h k n = elim (Member-add_all (processor_produces t) _ n) [
      | inl l ↦
          Member-append_right initially
            (Member-append_right provided (produced_in-processor d.transitions among l))
      | inr rest ↦ elim (Member-add_all (guard_produces t) _ rest) [
        | inl l ↦
            Member-append_right initially
              (Member-append_right provided (produced_in-guard d.transitions among l))
        | inr o ↦ provided-known (is_external t.type) base h k o
      ]
    ]

    legs-within :
        LegsWithin
          (met_states root d)
          (known_keys initially provided d)
          (λ s. map (leg_of provided) (transitions_from s d))
    unfolding leg_of met_states known_keys transitions_from
    legs-within state l m = (target, flows)
      where
        made : (t : Transition D) × Member t (transitions_from state d) × (leg_of provided t ≡ l)
        made = map-Member (leg_of provided) (transitions_from state d) m

        among : Member made.0 d.transitions
        among = (Member-filter (λ t. t.from == state) d.transitions made.1).0

        target : Member l.target (met_states root d)
        target = there (
            subst (λ z. Member z.target (map (λ t. t.to) d.transitions)) made.2
              (Member-map (λ t. t.to) among))

        flows :
            (base : List String) (acc : Collected)
            → Within (known_keys initially provided d) base
            → Within (known_keys initially provided d) (l.flow base acc).0
        flows base acc h =
            subst (λ z. Within (known_keys initially provided d) (z.flow base acc).0) made.2
              (available_through-known made.0 base among h)

    traverse_ends :
        (s : Seen) × (c : Collected) × (traverse d initially provided root ≡ some (s, c))
    unfolding traverse met_states known_keys
    traverse_ends =
        let (s, c, e, _) =
          walk_ends (met_states root d) (known_keys initially provided d)
            (λ s. map (leg_of provided) (transitions_from s d)) legs-within root
            (add_all initially []) (nothing_collected initially) here
            (initially-known d initially provided) in
        (s, c, e)

  -- The graph of every definition is built, whatever its transitions are and also where these form
  -- cycles: the walk over the states ends within its fuel.
  pub build-returns :
      (d : FlowDefinition D) (initially provided : List String)
      → (g : DataFlowGraph) × (build d initially provided ≡ some g)
  unfolding build graph_from finish
  build-returns d initially provided = by_root (truthy d.initial_state)
    where
      finished :
          (root : String) (o : Option (Seen × Collected))
          → (s : Seen) × (c : Collected) × (o ≡ some (s, c))
          → (g : DataFlowGraph) × (finish d initially provided root o ≡ some g)
      finished root none (s, c, e) = cc
      finished root (some (s, c)) e = (_, refl)

      by_root :
          (o : Option String) → (g : DataFlowGraph) × (graph_from d initially provided o ≡ some g)
      by_root none = (_, refl)
      by_root (some root) =
          finished root (traverse d initially provided root)
            (traverse_ends d initially provided root)
