-- ===== src/Builder/Requires/Ways.antt =====
-- The ways on which keys arrive at states, and that the walk of `checkRequiresProduces` follows them.
use tramli.Prelude.{
  String, ◌==◌, eq_iff, ◌≡◌, sym, subst, true, ◌⊎◌, inl, inr, some, List, Bool-cases, Member,
}
use tramli.Types.{Transition, TransitionGuard, BranchProcessor, StateProcessor, is_external}
use tramli.FlowDefinition.{FlowDefinition, transitions_from}
use tramli.Pipeline.Available.{Member-add_all}
use tramli.Availability.{Leg}
use tramli.Availability.Justified.{AllArrive}
use tramli.DataFlowGraph.{guard_produces, processor_produces, available_through}
use tramli.Builder.Requires.{at_event, past_guard, main_leg, error_leg, legs_of}
use tramli.Builder.Requires.Legs.{Fails, LegFrom, legs_of-LegFrom, from_state}

module _ {D : Type 0} (d : FlowDefinition D) (initially provided : List String)
    (root : String) where
  -- The states that the walk follows the flow to: along transitions, and along the error transition of
  -- a state where one of its transitions has a processor, which may fail. It follows no exit mapping,
  -- no exception route, and no error transition of a state without a processor.
  pub data Followed : String → Type 0 where
    start : Followed root
    along : (t : Transition D) → Member t d.transitions → Followed t.from → Followed t.to
    failing :
        (t : Transition D) {target : String}
        → Member t d.transitions
        → Fails d t target
        → Followed t.from
        → Followed target

  -- A key arrives at a state along some way: it is available from the start, or an event, a guard or
  -- a processor provides it, and it is kept. What a processor produces is not there where it fails.
  pub data Arrives : String → String → Type 0 where
    initial : {k : String} → Member k initially → Arrives root k
    kept :
        (t : Transition D) {k : String} → Member t d.transitions → Arrives t.from k → Arrives t.to k
    by_event :
        (t : Transition D) {k : String}
        → Member t d.transitions
        → Followed t.from
        → is_external t.type ≡ true
        → Member k provided
        → Arrives t.to k
    by_guard :
        (t : Transition D) {k : String}
        → Member t d.transitions
        → Followed t.from
        → Member k (guard_produces t)
        → Arrives t.to k
    by_processor :
        (t : Transition D) {k : String}
        → Member t d.transitions
        → Followed t.from
        → Member k (processor_produces t)
        → Arrives t.to k
    kept_failing :
        (t : Transition D) {target k : String}
        → Member t d.transitions
        → Fails d t target
        → Arrives t.from k
        → Arrives target k
    guard_failing :
        (t : Transition D) {target k : String}
        → Member t d.transitions
        → Fails d t target
        → Followed t.from
        → Member k (guard_produces t)
        → Arrives target k

  -- At the guard, and after it.
  abbrev pub AtGuard : Transition D → String → Type 0
  AtGuard t k = Arrives t.from k ⊎ ((is_external t.type ≡ true) × Member k provided)

  abbrev pub PastGuard : Transition D → String → Type 0
  PastGuard t k = Member k (guard_produces t) ⊎ AtGuard t k

  abbrev pub Met : Transition D → Type 0
  Met t =
      ((g : TransitionGuard) (k : String) → t.guard ≡ some g → Member k g.requires → AtGuard t k)
      × ((b : BranchProcessor) (k : String)
          → t.branch ≡ some b
          → Member k b.requires
          → PastGuard t k)
      × ((p : StateProcessor) (k : String)
          → t.processor ≡ some p
          → Member k p.requires
          → PastGuard t k)

  pub at_event-AtGuard :
      (t : Transition D) (base : List String) {k : String}
      → AllArrive Followed Arrives t.from base
      → Member k (at_event provided t base)
      → AtGuard t k
  unfolding at_event
  at_event-AtGuard t base {k} h m = elim (Bool-cases (is_external t.type)) [
    | inl e ↦ elim (Member-add_all provided base (rw e at m)) [
      | inl l ↦ inr (e, l)
      | inr o ↦ inl (h k o)
    ]
    | inr e ↦ inl (h k (rw e at m))
  ]

  pub past_guard-PastGuard :
      (t : Transition D) (base : List String) {k : String}
      → AllArrive Followed Arrives t.from base
      → Member k (past_guard provided t base)
      → PastGuard t k
  unfolding past_guard
  past_guard-PastGuard t base h m =
      elim (Member-add_all (guard_produces t) (at_event provided t base) m) [
        | inl l ↦ inl l
        | inr o ↦ inr (at_event-AtGuard t base h o)
      ]

  PastGuard-Arrives :
      (t : Transition D) {k : String}
      → Member t d.transitions
      → Followed t.from
      → PastGuard t k
      → Arrives t.to k
  PastGuard-Arrives t m r (inl l) = Arrives.by_guard t m r l
  PastGuard-Arrives t m r (inr (inl a)) = Arrives.kept t m a
  PastGuard-Arrives t m r (inr (inr (e, l))) = Arrives.by_event t m r e l

  main_leg-Arrives :
      (t : Transition D) (base errors : List String)
      → Member t d.transitions
      → Followed t.from
      → AllArrive Followed Arrives t.from base
      → AllArrive Followed Arrives t.to ((main_leg provided t).flow base errors).0
  unfolding main_leg available_through past_guard at_event
  main_leg-Arrives t base errors m r h k n =
      elim (Member-add_all (processor_produces t) (past_guard provided t base) n) [
        | inl l ↦ Arrives.by_processor t m r l
        | inr o ↦ PastGuard-Arrives t m r (past_guard-PastGuard t base h o)
      ]

  error_leg-Arrives :
      (t : Transition D) (target : String) (base errors : List String)
      → Member t d.transitions
      → Fails d t target
      → Followed t.from
      → AllArrive Followed Arrives t.from base
      → AllArrive Followed Arrives target ((error_leg t target).flow base errors).0
  unfolding error_leg
  error_leg-Arrives t target base errors m f r h k n =
      elim (Member-add_all (guard_produces t) base n) [
        | inl l ↦ Arrives.guard_failing t m f r l
        | inr o ↦ Arrives.kept_failing t m f (h k o)
      ]

  pub legs-Arrive :
      (s : String) (l : Leg (List String)) (base errors : List String)
      → Member l (legs_of d provided (transitions_from s d))
      → Followed s
      → AllArrive Followed Arrives s base
      → Followed l.target × AllArrive Followed Arrives l.target (l.flow base errors).0
  unfolding main_leg error_leg
  legs-Arrive s l base errors m r h = by_cases made.2
    where
      made : (t : Transition D) × Member t (transitions_from s d) × LegFrom d provided t l
      made = legs_of-LegFrom d provided (transitions_from s d) m

      among : Member made.0 d.transitions × ((made.0.from == s) ≡ true)
      among = from_state d s made.1

      here_is : s ≡ made.0.from
      here_is = sym ((eq_iff made.0.from s).0 among.1)

      reached : Followed made.0.from
      reached = subst Followed here_is r

      arrive : AllArrive Followed Arrives made.0.from base
      arrive = subst (λ z. AllArrive Followed Arrives z base) here_is h

      Onward : Leg (List String) → Type 0
      Onward k = Followed k.target × AllArrive Followed Arrives k.target (k.flow base errors).0

      by_cases : LegFrom d provided made.0 l → Onward l
      by_cases (inl q) = subst Onward q (
        Followed.along made.0 among.0 reached,
        main_leg-Arrives made.0 base errors among.0 reached arrive,
      )
      by_cases (inr (target, f, q)) = subst Onward q (
        Followed.failing made.0 among.0 f reached,
        error_leg-Arrives made.0 target base errors among.0 f reached arrive,
      )
