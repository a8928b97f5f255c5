-- ===== src/Engine/Select/Strict.antt =====
-- Which external transition an event selects.
use tramli.Prelude.{
  filter-Member, String, ◌≡◌, refl, sym, ap, subst, ◌≤◌, ◌<◌, nat_eq, Bool, true, false, ◌⊎◌, inl,
  inr, List, [], ◌∷◌, filter, any, arith, Bool-cases, Option-cases, List-cases, Member, here,
  Member-cons, Member-nil, Member-filter,
}
use tramli.Types.{Transition}
use tramli.Engine.Select.{
  selected, trigger_of, is_explicit, trigger_given, requires_given, specificity, max_specificity,
  most_specific, pick_explicit, pick_specific, pick_match, pick_legacy, select_from,
  select_external,
}
use tramli.Engine.Select.Choice.{select_external-Member}

module _ {ℓ} {A : Type ℓ} (p : A → Bool) where
  filter-only : (xs : List A) {x y : A} → filter p xs ≡ y ∷ [] → Member x xs → p x ≡ true → x ≡ y
  filter-only xs e m h = elim (Member-cons (rw e at (filter-Member p xs m h))) [
    | inl q ↦ sym q
    | inr n ↦ absurd (Member-nil n)
  ]

  filter-single : (xs : List A) {y : A} → filter p xs ≡ y ∷ [] → Member y xs × (p y ≡ true)
  filter-single xs {y} e = Member-filter p xs (subst (Member y) (sym e) here)

  filter-nil : (xs : List A) → any p xs ≡ false → filter p xs ≡ []
  filter-nil [] h = refl
  filter-nil (x ∷ xs) h = ground (arith, filter-nil xs)

  filter-cons : (xs : List A) → any p xs ≡ true → (y : A) × (ys : List A) × (filter p xs ≡ y ∷ ys)
  filter-cons [] h = cc
  filter-cons (x ∷ xs) h = elim (Bool-cases (p x)) [
    | inl e ↦ (x, filter p xs, rw e refl)
    | inr e ↦ rw e (filter-cons xs (rw e at h))
  ]

module _ {D : Type 0} where
  trigger_given-explicit :
      (given : List String) (t : Transition D) → trigger_given given t ≡ true → is_explicit t ≡ true
  unfolding trigger_given is_explicit
  trigger_given-explicit given t h = elim (Option-cases (trigger_of t)) [
    | inl e ↦ absurd (false_not_true (rw (e, trigger_given) at h))
    | inr (k, e) ↦ rw (e, is_explicit) refl
  ]
    where
      false_not_true : ¬ false ≡ true
      false_not_true q = cc

  max_specificity-bound :
      (ts : List (Transition D)) {t : Transition D}
      → Member t ts
      → specificity t ≤ max_specificity ts
  unfolding max_specificity
  max_specificity-bound [] m = absurd (Member-nil m)
  max_specificity-bound (u ∷ ts) {t} m = elim (Member-cons m) [
    | inl q ↦ let same = ap specificity q in omega arith
    | inr n ↦ omega (arith, max_specificity-bound ts n)
  ]

  -- The only one, or strictly more specific than every other.
  abbrev Beats : List (Transition D) → Transition D → Type 0
  Beats ms t = (u : Transition D) → Member u ms → (u ≡ t) ⊎ (specificity u < specificity t)

  most_specific-Beats :
      (ms : List (Transition D)) {t : Transition D} → most_specific ms ≡ t ∷ [] → Beats ms t
  unfolding most_specific
  most_specific-Beats ms {t} e u m =
      elim (Bool-cases (nat_eq (specificity u) (max_specificity ms))) [
        | inl q ↦ inl (filter-only _ ms e m q)
        | inr q ↦ inr (ground (arith, max_specificity-bound ms m, top))
      ]
    where
      top : nat_eq (specificity t) (max_specificity ms) ≡ true
      top =
          (filter-single (λ (v : Transition D). nat_eq (specificity v) (max_specificity ms)) ms e).1

  pick_specific-single :
      (ms : List (Transition D)) (state : String) {t : Transition D}
      → pick_specific ms state ≡ selected t
      → ms ≡ t ∷ []
  unfolding pick_specific
  pick_specific-single [] state h = cc
  pick_specific-single (u ∷ []) state h = cc
  pick_specific-single (u ∷ v ∷ ms) state h = cc

  pick_explicit-single :
      (ms : List (Transition D)) (state : String) {t : Transition D}
      → pick_explicit ms state ≡ selected t
      → ms ≡ t ∷ []
  unfolding pick_explicit
  pick_explicit-single [] state h = cc
  pick_explicit-single (u ∷ []) state h = cc
  pick_explicit-single (u ∷ v ∷ ms) state h = cc

  -- Where some transition has a trigger: it is the only one whose trigger is given.
  abbrev pub ByTrigger : List (Transition D) → List String → Transition D → Type 0
  ByTrigger ts given t =
      (trigger_given given t ≡ true)
      × ((u : Transition D) → Member u ts → trigger_given given u ≡ true → u ≡ t)

  -- Where none has: it is alone, or its requirements are given and it is strictly more specific
  -- than every other whose requirements are.
  abbrev pub ByRequires : List (Transition D) → List String → Transition D → Type 0
  ByRequires ts given t =
      (ts ≡ t ∷ [])
      ⊎ ((requires_given given t ≡ true)
          × ((u : Transition D)
              → Member u ts
              → requires_given given u ≡ true
              → (u ≡ t) ⊎ (specificity u < specificity t)))

  pick_match-Strict :
      (p : Transition D → Bool) (ts : List (Transition D)) (state : String) {t : Transition D}
      → pick_match (filter p ts) state ≡ selected t
      → (p t ≡ true)
        × ((u : Transition D)
            → Member u ts
            → p u ≡ true
            → (u ≡ t) ⊎ (specificity u < specificity t))
  unfolding pick_match
  pick_match-Strict p ts state {t} h = elim (List-cases (filter p ts)) [
    | inl e ↦ absurd (none_matches (rw e at h))
    | inr (v, vs, e) ↦
        let single =
          pick_specific-single (most_specific (v ∷ vs)) state (rw (e, pick_match) at h) in
        (
          (Member-filter p ts (rw e (top (v ∷ vs) single))).1,
          λ u m q.
              most_specific-Beats (v ∷ vs) single u
                (subst (λ z. Member u z) e (filter-Member p ts m q)),
        )
  ]
    where
      none_matches : ¬ pick_match [] state ≡ selected t
      none_matches q = cc

      top : (ms : List (Transition D)) → most_specific ms ≡ t ∷ [] → Member t ms
      top ms e =
          unfold most_specific in
          (filter-single (λ (v : Transition D). nat_eq (specificity v) (max_specificity ms)) ms e).0

  pick_legacy-ByRequires :
      (ts : List (Transition D)) (given : List String) (state : String) {t : Transition D}
      → pick_legacy ts given state ≡ selected t
      → ByRequires ts given t
  unfolding pick_legacy
  pick_legacy-ByRequires [] given state h =
      inr (pick_match-Strict (requires_given given) [] state h)
  pick_legacy-ByRequires (u ∷ []) given state h = inl (cc)
  pick_legacy-ByRequires (u ∷ v ∷ ts) given state h =
      inr (pick_match-Strict (requires_given given) (u ∷ v ∷ ts) state h)

  pub select_external-single :
      (ts : List (Transition D)) (given : List String) (state : String) {t : Transition D}
      → filter (trigger_given given) (filter is_explicit ts) ≡ t ∷ []
      → select_external ts given state ≡ selected t
  unfolding select_external select_from pick_explicit
  select_external-single ts given state {t} h = elim (List-cases (filter is_explicit ts)) [
    | inl e ↦ absurd (none_is_not_one (rw e at h))
    | inr (y, ys, e) ↦
        let one : filter (trigger_given given) (y ∷ ys) ≡ t ∷ [] = rw e at h in
        rw (e, select_external, select_from, one) refl
  ]
    where
      none_is_not_one : ¬ [] ≡ t ∷ []
      none_is_not_one q = cc

  -- An event selects a transition only if it is one of the state's, and: where some of these has a
  -- trigger, its own trigger is given and no other's is; where none has, it is the only one, or its
  -- requirements are given and it is strictly more specific than every other whose requirements are.
  pub select_external-Strict :
      (ts : List (Transition D)) (given : List String) (state : String) (t : Transition D)
      → select_external ts given state ≡ selected t
      → Member t ts
        × (any is_explicit ts ≡ true → ByTrigger ts given t)
        × (any is_explicit ts ≡ false → ByRequires ts given t)
  unfolding select_external select_from
  select_external-Strict ts given state t h =
      (select_external-Member state ts given h, by_trigger, by_requires)
    where
      by_trigger : any is_explicit ts ≡ true → ByTrigger ts given t
      by_trigger some_explicit =
          let (y, ys, e) = filter-cons is_explicit ts some_explicit in
          let single =
            pick_explicit-single (filter (trigger_given given) (y ∷ ys)) state
              (rw (e, select_external, select_from) at h) in
          (
            (filter-single (trigger_given given) (y ∷ ys) single).1,
            λ u m q.
                filter-only (trigger_given given) (y ∷ ys) single
                  (subst (λ z. Member u z) e
                    (filter-Member is_explicit ts m (trigger_given-explicit given u q)))
                  q,
          )

      by_requires : any is_explicit ts ≡ false → ByRequires ts given t
      by_requires none_explicit =
          pick_legacy-ByRequires ts given state
            (rw (filter-nil is_explicit ts none_explicit, select_external, select_from) at h)
