-- ===== src/Availability/Entering.antt =====
-- What entering a state records: keys that it is entered with, for that state only.
use tramli.Prelude.{
  String, ◌==◌, eq_iff, ◌≡◌, refl, sym, ap, ◌∙◌, true, ◌⊎◌, inl, inr, Option, none, some, get_or,
  List, [], all, filter, contains, lookup, insert, is_some, lookup-insert, lookup-insert_self,
  Bool-cases, Option-cases, Member, Member-filter,
}
use tramli.Pipeline.Available.{contains-Member}
use tramli.Availability.{Seen, revisit, enter_state, and_then}

pub entered-writes :
    (state : String) (available : List String) (seen entered : Seen)
    → enter_state state available seen ≡ some entered
    → (set : List String) × (insert state set seen ≡ entered)
      × ((k : String) → Member k set → Member k available)
unfolding enter_state revisit
entered-writes state available seen entered e = elim (Option-cases (lookup state seen)) [
  | inl new ↦ (available, some_injective (rw (new, enter_state) at e), λ k m. m)
  | inr (existing, old) ↦ elim (Bool-cases (all (λ a. contains a existing) available)) [
    | inl q ↦ absurd (none_is_not_some (rw (old, enter_state, revisit, q) at e))
    | inr q ↦ elim (Bool-cases (all (λ a. contains a available) existing)) [
      | inl r ↦ absurd (none_is_not_some (rw (old, enter_state, revisit, q, r) at e))
      | inr r ↦ (
        filter (λ a. contains a available) existing,
        some_injective (rw (old, enter_state, revisit, q, r) at e),
        λ k m. contains-Member k available (Member-filter (λ a. contains a available) existing m).1,
      )
    ]
  ]
]
  where
    none_is_not_some : ¬ none ≡ some entered
    none_is_not_some p = cc

    some_injective : {s : Seen} → some s ≡ some entered → s ≡ entered
    some_injective p = cc

abbrev pub recorded : String → Seen → List String
recorded s seen = get_or [] (lookup s seen)

abbrev pub Known : String → Seen → Type 0
Known s seen = is_some (lookup s seen) ≡ true

-- Entering a state records it and leaves the others.
pub entered-others :
    (state : String) (available : List String) (seen entered : Seen)
    → enter_state state available seen ≡ some entered
    → Known state entered × ((u : String) → (state ≡ u) ⊎ (lookup u entered ≡ lookup u seen))
entered-others state available seen entered e =
    let (set, q, _) = entered-writes state available seen entered e in
    (
      rw (sym q, lookup-insert_self state set seen) refl,
      λ u. elim (Bool-cases (state == u)) [
        | inl r ↦ inl ((eq_iff state u).0 r)
        | inr r ↦ inr (ap (lookup u) (sym q) ∙ (lookup-insert state u set seen ∙ rw r refl))
      ],
    )

-- A state that is not entered is known.
pub not_entered-Known :
    (state : String) (available : List String) (seen : Seen)
    → enter_state state available seen ≡ none
    → Known state seen
unfolding enter_state
not_entered-Known state available seen e = elim (Option-cases (lookup state seen)) [
  | inl new ↦ absurd (some_is_not_none (rw (new, enter_state) at e))
  | inr (existing, old) ↦ rw old refl
]
  where
    some_is_not_none : ¬ some (insert state available seen) ≡ none
    some_is_not_none p = cc

module _ {A : Type 0} where
  pub and_then-some :
      (o : Option (Seen × A)) (k : Seen × A → Option (Seen × A)) {r : Seen × A}
      → and_then o k ≡ some r
      → (s : Seen) × (a : A) × (o ≡ some (s, a)) × (k (s, a) ≡ some r)
  unfolding and_then
  and_then-some none k e = cc
  and_then-some (some (s, a)) k e = (s, a, refl, e)
