-- ===== src/Builder/Distinct/Routing.antt =====
-- What the check means for the engine: an event goes to the transition whose trigger it carries.
use tramli.Prelude.{
  filter-Member, String, ◌≡◌, refl, sym, ◌∙◌, ap, subst, ◌≤◌, Bool, true, false, ◌⊎◌, inl, inr,
  none, some, List, [], ◌∷◌, filter, length, contains, add, arith, Bool-cases, Option-cases, Member,
  here, there, Member-cons, Member-nil, append-eq-nil, Member-filter,
}
use tramli.Types.{Transition}
use tramli.FlowDefinition.{FlowDefinition, externals_from, all_states}
use tramli.Pipeline.Available.{Member-contains, add-Member, add-Member_old}
use tramli.Engine.Select.{trigger_of, is_explicit, trigger_given, selected, select_external}
use tramli.Engine.Select.Strict.{select_external-single}
use tramli.Builder.Distinct.{
  duplicate_errors, triggers_in, distinct_errors_at, distinct_errors,
  check_external_requires_distinct,
}

duplicate_errors-fresh :
    (state : String) (seen ks : List String) {k : String}
    → duplicate_errors state seen ks ≡ []
    → Member k seen
    → ¬ Member k ks
unfolding duplicate_errors
duplicate_errors-fresh state seen [] h m n = Member-nil n
duplicate_errors-fresh state seen (j ∷ ks) {k} h m n = elim (Bool-cases (contains j seen)) [
  | inl e ↦ absurd (nonempty (rw e at h))
  | inr e ↦ elim (Member-cons n) [
    | inl q ↦ absurd (differ (sym (Member-contains (subst (λ z. Member z seen) (sym q) m)) ∙ e))
    | inr l ↦ duplicate_errors-fresh state (add j seen) ks (rw e at h) (add-Member_old j seen m) l
  ]
]
  where
    nonempty : {x : String} {xs : List String} → ¬ x ∷ xs ≡ []
    nonempty q = cc

    differ : ¬ true ≡ false
    differ q = cc

duplicate_errors-rest :
    (state : String) (seen ks : List String) (j : String)
    → duplicate_errors state seen (j ∷ ks) ≡ []
    → duplicate_errors state (add j seen) ks ≡ []
unfolding duplicate_errors
duplicate_errors-rest state seen ks j h = ground arith

module _ {D : Type 0} where
  triggers_in-Member :
      (ts : List (Transition D)) {t : Transition D} {k : String}
      → Member t ts
      → trigger_of t ≡ some k
      → Member k (triggers_in ts)
  unfolding triggers_in
  triggers_in-Member [] m h = absurd (Member-nil m)
  triggers_in-Member (u ∷ ts) {t} {k} m h = elim (Option-cases (trigger_of u)) [
    | inl e ↦ elim (Member-cons m) [
      | inl q ↦ absurd (none_is_not_some (sym e ∙ ap trigger_of q ∙ h))
      | inr n ↦ rw (e, triggers_in) (triggers_in-Member ts n h)
    ]
    | inr (j, e) ↦ elim (Member-cons m) [
      | inl q ↦
          let same : j ≡ k = (let p : some j ≡ some k = sym e ∙ ap trigger_of q ∙ h in cc) in
          rw (e, triggers_in) (subst (λ z. Member z (j ∷ triggers_in ts)) same here)
      | inr n ↦ rw (e, triggers_in) (there (triggers_in-Member ts n h))
    ]
  ]
    where
      none_is_not_some : ¬ none ≡ some k
      none_is_not_some q = cc

  -- Of the given keys, only `k` is a trigger of one of the transitions.
  abbrev pub OnlyTrigger : String → List String → List (Transition D) → Type 0
  OnlyTrigger k given ts =
      (u : Transition D) → Member u ts → trigger_given given u ≡ true → trigger_of u ≡ some k

  none-given :
      (ts : List (Transition D)) (given : List String) (k : String)
      → OnlyTrigger k given ts
      → ¬ Member k (triggers_in ts)
      → filter (trigger_given given) ts ≡ []
  none-given [] given k only absent = refl
  none-given (u ∷ ts) given k only absent = elim (Bool-cases (trigger_given given u)) [
    | inl e ↦ absurd (absent (triggers_in-Member (u ∷ ts) here (only u here e)))
    | inr e ↦ rw e (none-given ts given k (λ v m. only v (there m)) (λ m. absent (later u m)))
  ]
    where
      later : (v : Transition D) → Member k (triggers_in ts) → Member k (triggers_in (v ∷ ts))
      later v m = elim (Option-cases (trigger_of v)) [
        | inl e ↦ unfold triggers_in in (rw (e, triggers_in) m)
        | inr (j, e) ↦ unfold triggers_in in (rw (e, triggers_in) (there m))
      ]

  one-given :
      (state : String) (seen : List String) (ts : List (Transition D)) (given : List String)
      (k : String) {t : Transition D}
      → duplicate_errors state seen (triggers_in ts) ≡ []
      → Member t ts
      → trigger_of t ≡ some k
      → trigger_given given t ≡ true
      → OnlyTrigger k given ts
      → filter (trigger_given given) ts ≡ t ∷ []
  unfolding trigger_given triggers_in duplicate_errors
  one-given state seen [] given k h m own hit only = absurd (Member-nil m)
  one-given state seen (u ∷ ts) given k {t} h m own hit only = elim (Option-cases (trigger_of u)) [
    | inl e ↦ elim (Member-cons m) [
      | inl q ↦ absurd (none_is_not_some (sym e ∙ ap trigger_of q ∙ own))
      | inr n ↦ rw (no_trigger e) (
          one-given state seen ts given k (rw (e, triggers_in) at h) n own hit
            (λ v l. only v (there l)))
    ]
    | inr (j, e) ↦
        first_given j e
          (λ s q n. one-given state s ts given k q n own hit (λ v l. only v (there l)))
          (rw (e, triggers_in) at h) (Bool-cases (trigger_given given u))
  ]
    where
      none_is_not_some : ¬ none ≡ some k
      none_is_not_some q = cc

      no_trigger : trigger_of u ≡ none → trigger_given given u ≡ false
      no_trigger e = rw (e, trigger_given) refl

      first_given :
          (j : String)
          → trigger_of u ≡ some j
          → ((s : List String)
              → duplicate_errors state s (triggers_in ts) ≡ []
              → Member t ts
              → filter (trigger_given given) ts ≡ t ∷ [])
          → duplicate_errors state seen (j ∷ triggers_in ts) ≡ []
          → (trigger_given given u ≡ true) ⊎ (trigger_given given u ≡ false)
          → filter (trigger_given given) (u ∷ ts) ≡ t ∷ []
      first_given j e again distinct (inl hits) =
          let same : j ≡ k = (let p : some j ≡ some k = sym e ∙ only u here hits in cc) in
          let absent : ¬ Member k (triggers_in ts) =
            duplicate_errors-fresh state (add j seen) (triggers_in ts)
              (duplicate_errors-rest state seen (triggers_in ts) j distinct)
              (subst (λ z. Member z (add j seen)) same (add-Member j seen)) in
          let empty = none-given ts given k (λ v l. only v (there l)) absent in
          elim (Member-cons m) [
            | inl q ↦ rw (hits, empty) (ap (λ z. z ∷ []) q)
            | inr n ↦ absurd (absent (triggers_in-Member ts n own))
          ]
      first_given j e again distinct (inr misses) = elim (Member-cons m) [
        | inl q ↦ absurd (true_is_not_false (sym hit ∙ ap (trigger_given given) (sym q) ∙ misses))
        | inr n ↦
            rw misses
              (again (add j seen) (duplicate_errors-rest state seen (triggers_in ts) j distinct) n)
      ]
        where
          true_is_not_false : ¬ true ≡ false
          true_is_not_false q = cc

  duplicate_errors-single :
      (state : String) (t : Transition D) → duplicate_errors state [] (triggers_in (t ∷ [])) ≡ []
  unfolding duplicate_errors triggers_in contains
  duplicate_errors-single state t = elim (Option-cases (trigger_of t)) [
    | inl e ↦ rw (e, triggers_in) refl
    | inr (k, e) ↦ rw (e, triggers_in) refl
  ]

  distinct_errors_at-nil :
      (state : String) (ts us : List (Transition D)) {t : Transition D}
      → Member t us
      → length us ≤ length ts
      → distinct_errors_at state ts us ≡ []
      → duplicate_errors state [] (triggers_in us) ≡ []
  unfolding distinct_errors_at
  distinct_errors_at-nil state ts [] m le h = absurd (Member-nil m)
  distinct_errors_at-nil state ts (u ∷ []) m le h = duplicate_errors-single state u
  distinct_errors_at-nil state ts (u ∷ v ∷ us) m le h = ground arith

  length-filter :
      (p : Transition D → Bool) (ts : List (Transition D)) → length (filter p ts) ≤ length ts
  length-filter p [] = ground arith
  length-filter p (t ∷ ts) = ground (arith, length-filter p ts)

  distinct_errors-at :
      (d : FlowDefinition D) (states : List String) {state : String}
      → distinct_errors d states ≡ []
      → Member state states
      → distinct_errors_at state
          (externals_from state d)
          (filter is_explicit (externals_from state d))
        ≡ []
  unfolding distinct_errors
  distinct_errors-at d [] h m = absurd (Member-nil m)
  distinct_errors-at d (s ∷ states) {state} h m = elim (Member-cons m) [
    | inl q ↦
        subst
          (λ z.
            distinct_errors_at z (externals_from z d) (filter is_explicit (externals_from z d))
            ≡ [])
          q (append-eq-nil _ _ h).0
    | inr n ↦ distinct_errors-at d states (append-eq-nil _ _ h).1 n
  ]

  -- In a definition that the check accepts, an event that carries the trigger of a transition of the
  -- state, and no other trigger of that state, selects that transition.
  pub check-routes :
      (d : FlowDefinition D) (state : String) (t : Transition D) (given : List String) (k : String)
      → check_external_requires_distinct d ≡ []
      → Member state (all_states d)
      → Member t (externals_from state d)
      → trigger_of t ≡ some k
      → Member k given
      → OnlyTrigger k given (externals_from state d)
      → select_external (externals_from state d) given state ≡ selected t
  unfolding check_external_requires_distinct is_explicit trigger_given
  check-routes d state t given k h m mt own carried only =
      select_external-single (externals_from state d) given state (
        one-given state [] explicit given k
          (distinct_errors_at-nil state (externals_from state d) explicit t_explicit
            (length-filter is_explicit (externals_from state d))
            (distinct_errors-at d (all_states d) h m))
          t_explicit own (rw (own, trigger_given) (Member-contains carried))
          (λ u l. only u (Member-filter is_explicit (externals_from state d) l).0))
    where
      explicit : List (Transition D)
      explicit = filter is_explicit (externals_from state d)

      t_explicit : Member t explicit
      t_explicit =
          filter-Member is_explicit (externals_from state d) mt (rw (own, is_explicit) refl)
