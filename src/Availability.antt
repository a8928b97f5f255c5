-- ===== src/Availability.antt =====
-- The walk that finds which data are available in which state: the part that
-- `checkRequiresProducesFrom` of lang/ts/src/flow-definition.ts and `traverse` of
-- lang/ts/src/data-flow-graph.ts have in common. `A` is what the walk collects: errors, or the graph.
-- The fuel counts nested calls; with none left the result is `none`.
pub mod Measure
pub mod Ends
pub mod Entering
pub mod Settled
pub mod Justified
pub mod Keeps
use tramli.Prelude.{
  String, ℕ, zero, suc, ◌+◌, Bool, true, false, if◌then◌else◌, Option, none, some, get_or, List, [],
  ◌∷◌, all, filter, contains, Dict, lookup, insert,
}

-- The states seen, each with the keys recorded for it.
abbrev pub Seen : Type 0
Seen = Dict (List String)

-- The join with what is recorded; `none`: the visit ends here.
revisit : String → List String → List String → Seen → Option Seen
revisit state available existing seen =
    if all (λ a. contains a existing) available
    then none
    else if all (λ a. contains a available) existing
    then none
    else some (insert state (filter (λ a. contains a available) existing) seen)

unfoldable pub enter_state : String → List String → Seen → Option Seen
unfolding revisit
enter_state state available seen = elim (lookup state seen) [
  | none ↦ some (insert state available seen)
  | some existing ↦ revisit state available existing seen
]

-- A visit that follows from a transition: where it goes, and what it makes of the keys that are
-- recorded for the state at that time.
pub record Leg (A : Type 0) : Type 0 where
  pub target : String
  pub flow : List String → A → List String × A

abbrev pub Visit : Type 0 → Type 0
Visit A = String → List String → Seen × A → Option (Seen × A)

module _ {A : Type 0} where
  take_leg : Visit A → String → Seen → List String × A → Option (Seen × A)
  take_leg visit target seen (available, acc) = visit target available (seen, acc)

  pub and_then : Option (Seen × A) → (Seen × A → Option (Seen × A)) → Option (Seen × A)
  and_then none k = none
  and_then (some s) k = k s

  unfoldable pub take_legs : Visit A → String → List (Leg A) → Seen × A → Option (Seen × A)
  unfolding take_leg and_then
  take_legs visit state [] s = some s
  take_legs visit state (l ∷ ls) (seen, acc) =
      and_then (take_leg visit l.target seen (l.flow (get_or [] (lookup state seen)) acc))
        (take_legs visit state ls)

  module _ (legs : String → List (Leg A)) where
    unfoldable pub walk : ℕ → Visit A
    walk zero state available s = none
    walk (suc fuel) state available (seen, acc) = elim (enter_state state available seen) [
      | none ↦ some (seen, acc)
      | some entered ↦ take_legs (walk fuel) state (legs state) (entered, acc)
    ]

-- Rounds enough for these states and that many keys.
unfoldable pub budget : List String → ℕ → ℕ
budget [] keys = 0
budget (s ∷ states) keys = suc keys + budget states keys
