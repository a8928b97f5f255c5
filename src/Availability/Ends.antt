-- ===== src/Availability/Ends.antt =====
-- The walk ends: each visit that is not dropped sees a new state or takes a key from a state.
use tramli.Prelude.{
  String, ◌≡◌, refl, ℕ, zero, suc, ◌≤◌, ◌<◌, inl, inr, Option, some, get_or, List, [], ◌∷◌, length,
  lookup, arith, Option-cases, Member, here, there, Member-nil,
}
use tramli.Availability.{Seen, enter_state, Leg, Visit, take_leg, and_then, take_legs, walk, budget}
use tramli.Availability.Measure.{Within, measure, measure-budget, Inside, enter_state-measure}

-- The legs stay among these states and these keys.
abbrev pub LegsWithin : {A : Type 0} → List String → List String → (String → List (Leg A)) → Type 0
LegsWithin {A} states keys legs =
    (state : String) (l : Leg A)
    → Member l (legs state)
    → Member l.target states
      × ((base : List String) (acc : A) → Within keys base → Within keys (l.flow base acc).0)

recorded-Within :
    (states keys : List String) (state : String) (seen : Seen)
    → Inside states keys seen
    → Within keys (get_or [] (lookup state seen))
recorded-Within states keys state seen h = elim (Option-cases (lookup state seen)) [
  | inl e ↦ rw e (λ x m. absurd (Member-nil m))
  | inr (set, e) ↦ rw e (h state set e)
]

module _ {A : Type 0} (states keys : List String) where
  -- It returns, has recorded no less, and has recorded known keys only.
  abbrev Ended : Seen → Option (Seen × A) → Type 0
  Ended seen o =
      (s : Seen) × (a : A) × (o ≡ some (s, a))
      × (measure states keys s ≤ measure states keys seen)
      × Inside states keys s

  abbrev Visits : ℕ → Visit A → Type 0
  Visits fuel visit =
      (state : String) (available : List String) (seen : Seen) (acc : A)
      → Member state states
      → Within keys available
      → Inside states keys seen
      → measure states keys seen < fuel
      → Ended seen (visit state available (seen, acc))

  and_then-Ended :
      (seen : Seen) (o : Option (Seen × A)) (k : Seen × A → Option (Seen × A))
      → Ended seen o
      → ((s : Seen) (a : A)
          → measure states keys s ≤ measure states keys seen
          → Inside states keys s
          → Ended s (k (s, a)))
      → Ended seen (and_then o k)
  unfolding and_then
  and_then-Ended seen o k (s, a, e, le, inside) h =
      let (u, b, r, less, within) = h s a le inside in (u, b, rw e r, omega arith, within)

  module _ (legs : String → List (Leg A)) (known : LegsWithin states keys legs) where
    take_legs-Ended :
        (fuel : ℕ) (visit : Visit A) (state : String) (ls : List (Leg A)) (seen : Seen) (acc : A)
        → Visits fuel visit
        → ((l : Leg A) → Member l ls → Member l (legs state))
        → Inside states keys seen
        → measure states keys seen < fuel
        → Ended seen (take_legs visit state ls (seen, acc))
    unfolding take_legs take_leg
    take_legs-Ended fuel visit state [] seen acc h among inside enough =
        (seen, acc, refl, omega arith, inside)
    take_legs-Ended fuel visit state (l ∷ ls) seen acc h among inside enough =
        and_then-Ended seen (visit l.target given.0 (seen, given.1)) (take_legs visit state ls)
          (h l.target given.0 seen given.1 (known state l (among l here)).0
            ((known state l (among l here)).1 recorded acc
              (recorded-Within states keys state seen inside))
            inside enough)
          λ s a le within.
            take_legs-Ended fuel visit state ls s a h (λ m k. among m (there k)) within
              (omega (arith, le, enough))
      where
        recorded : List String
        recorded = get_or [] (lookup state seen)

        given : List String × A
        given = l.flow recorded acc

    walk-Visits : (fuel : ℕ) → Visits fuel (walk legs fuel)
    unfolding walk
    walk-Visits zero state available seen acc m within inside enough = absurd (omega arith)
    walk-Visits (suc fuel) state available seen acc m within inside enough =
        elim (Option-cases (enter_state state available seen)) [
          | inl e ↦ rw (e, walk) (seen, acc, refl, omega arith, inside)
          | inr (entered, e) ↦
              let (less, known_in) =
                enter_state-measure states keys state available seen entered m within inside e in
              let (s, a, r, le, known_out) =
                take_legs-Ended fuel (walk legs fuel) state (legs state) entered acc
                  (walk-Visits fuel) (λ l k. k) known_in (omega (arith, less, enough)) in
              (s, a, rw (e, walk) r, omega (arith, less, le), known_out)
        ]

    -- From nothing seen, the walk returns within its budget.
    pub walk_ends :
        (state : String) (available : List String) (acc : A)
        → Member state states
        → Within keys available
        → (s : Seen) × (a : A) × (walk legs
              (suc (budget states (length keys)))
              state
              available
              ([], acc)
            ≡ some (s, a))
          × Inside states keys s
    unfolding lookup
    walk_ends state available acc m within =
        let (s, a, e, le, inside) =
          walk-Visits (suc (budget states (length keys))) state available [] acc m within
            (λ t set q. cc) (omega (arith, measure-budget states keys [])) in
        (s, a, e, inside)
