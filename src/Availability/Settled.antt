-- ===== src/Availability/Settled.antt =====
-- What the walk leaves behind: every state that it records is settled. Each of its visits has gone
-- well with the keys that are recorded in the end, and goes to a state that is recorded too.
use tramli.Prelude.{
  String, ◌≡◌, refl, sym, ap, ◌∙◌, subst, ℕ, zero, suc, ◌⊎◌, inl, inr, some, get_or, List, [], ◌∷◌,
  lookup, is_some, Option-cases, Member, here, there, Member-cons, Member-nil,
}
use tramli.Availability.Entering.{recorded, Known, entered-others, not_entered-Known, and_then-some}
use tramli.Availability.{Seen, enter_state, Leg, Visit, take_leg, take_legs, walk}

module _ {A : Type 0} where
  module _ (legs : String → List (Leg A)) (Good : A → Type 0) (Ok : Leg A → List String → Type 0)
      (step : (s : String) (l : Leg A) (base : List String) (acc : A)
        → Member l (legs s)
        → Good (l.flow base acc).1
        → Good acc × Ok l base) where
    abbrev pub SettledLeg : String → Leg A → Seen → Type 0
    SettledLeg u l seen = Ok l (recorded u seen) × Known l.target seen

    abbrev pub Settled : String → Seen → Type 0
    Settled u seen = (l : Leg A) → Member l (legs u) → SettledLeg u l seen

    abbrev Unchanged : Seen → String → Seen → Type 0
    Unchanged seen u s = Known u seen × (recorded u s ≡ recorded u seen)

    abbrev Grown : Seen → Seen → Type 0
    Grown seen s = (u : String) → Known u seen → Known u s

    abbrev Later : Seen → Seen → Type 0
    Later seen s = Grown seen s × ((u : String) → Known u s → Settled u s ⊎ Unchanged seen u s)

    Later-refl : (seen : Seen) → Later seen seen
    Later-refl seen = (λ u k. k, λ u k. inr (k, refl))

    SettledLeg-keeps :
        (seen s : Seen) (u : String) (l : Leg A)
        → Grown seen s
        → recorded u s ≡ recorded u seen
        → SettledLeg u l seen
        → SettledLeg u l s
    SettledLeg-keeps seen s u l grown same (ok, known) =
        (subst (Ok l) (sym same) ok, grown l.target known)

    Later-trans : (r s t : Seen) → Later r s → Later s t → Later r t
    Later-trans r s t (grown, old) (grows, new) = (λ u k. grows u (grown u k), both)
      where
        both : (u : String) → Known u t → Settled u t ⊎ Unchanged r u t
        both u k = elim (new u k) [
          | inl settled ↦ inl settled
          | inr (k', same) ↦ elim (old u k') [
            | inl settled ↦ inl (λ l m. SettledLeg-keeps s t u l grows same (settled l m))
            | inr (k'', q) ↦ inr (k'', same ∙ q)
          ]
        ]

    -- A leg of a known state stays settled.
    SettledLeg-remains :
        (seen s : Seen) (u : String) (l : Leg A)
        → Known u seen
        → Member l (legs u)
        → Later seen s
        → SettledLeg u l seen
        → SettledLeg u l s
    SettledLeg-remains seen s u l k m (grown, new) h = elim (new u (grown u k)) [
      | inl settled ↦ settled l m
      | inr (k', same) ↦ SettledLeg-keeps seen s u l grown same h
    ]

    abbrev Visits : Visit A → Type 0
    Visits visit =
        (state : String) (available : List String) (seen : Seen) (acc : A) (s : Seen) (a : A)
        → visit state available (seen, acc) ≡ some (s, a)
        → Grown seen s × Known state s × (Good a → Good acc × Later seen s)

    -- A visit along a leg, and then the visits along the others.
    joined :
        (state : String) (l : Leg A) (ls : List (Leg A)) (seen s1 s : Seen) (acc : A)
        → Member l (legs state)
        → ((k : Leg A) → Member k ls → Member k (legs state))
        → Known state seen
        → Known state s1
        → Known l.target s1
        → Good (l.flow (recorded state seen) acc).1 × Later seen s1
        → Later s1 s
        → ((k : Leg A) → Member k ls → SettledLeg state k s)
        → Good acc × Later seen s × ((k : Leg A) → Member k (l ∷ ls) → SettledLeg state k s)
    joined state l ls seen s1 s acc m among known known1 target (good, before) after settled =
        (taken.0, Later-trans seen s1 s before after, each)
      where
        taken : Good acc × Ok l (recorded state seen)
        taken = step state l (recorded state seen) acc m good

        settled1 : SettledLeg state l s1
        settled1 = elim (before.1 state known1) [
          | inl all_of_it ↦ all_of_it l m
          | inr (_, same) ↦ (subst (Ok l) (sym same) taken.1, target)
        ]

        each : (k : Leg A) → Member k (l ∷ ls) → SettledLeg state k s
        each k n = elim (Member-cons n) [
          | inl q ↦
              subst (λ z. SettledLeg state z s) q
                (SettledLeg-remains s1 s state l known1 m after settled1)
          | inr o ↦ settled k o
        ]

    take_legs-Later :
        (visit : Visit A) (state : String) (ls : List (Leg A)) (seen : Seen) (acc : A) (s : Seen)
        (a : A)
        → Visits visit
        → ((l : Leg A) → Member l ls → Member l (legs state))
        → Known state seen
        → take_legs visit state ls (seen, acc) ≡ some (s, a)
        → Grown seen s
          × (Good a → Good acc × Later seen s × ((l : Leg A) → Member l ls → SettledLeg state l s))
    unfolding take_legs take_leg
    take_legs-Later visit state [] seen acc s a h among known e =
        let same_seen : seen ≡ s = cc in
        let same_acc : acc ≡ a = cc in
        (
          subst (Grown seen) same_seen (λ u k. k),
          λ good. (
            subst Good (sym same_acc) good,
            subst (Later seen) same_seen (Later-refl seen),
            λ l m. absurd (Member-nil m),
          ),
        )
    take_legs-Later visit state (l ∷ ls) seen acc s a h among known e =
        let (s1, a1, first, rest) =
          and_then-some (visit l.target given.0 (seen, given.1)) (take_legs visit state ls) e in
        let (grown, target, before) = h l.target given.0 seen given.1 s1 a1 first in
        let (grows, after) =
          take_legs-Later visit state ls s1 a1 s a h (λ k m. among k (there m)) (grown state known)
            rest in
        (
          λ u k. grows u (grown u k),
          λ good.
              let (good1, later, settled) = after good in
              joined state l ls seen s1 s acc (among l here) (λ k m. among k (there m)) known
                (grown state known) target (before good1) later settled,
        )
      where
        given : List String × A
        given = l.flow (recorded state seen) acc

    walk-Visits : (fuel : ℕ) → Visits (walk legs fuel)
    unfolding walk
    walk-Visits zero state available seen acc s a e = cc
    walk-Visits (suc fuel) state available seen acc s a e =
        elim (Option-cases (enter_state state available seen)) [
          | inl dropped ↦
              let same : some (seen, acc) ≡ some (s, a) = rw (dropped, walk) at e in
              let same_seen : seen ≡ s = cc in
              let same_acc : acc ≡ a = cc in
              (
                subst (Grown seen) same_seen (λ u k. k),
                subst (Known state) same_seen (not_entered-Known state available seen dropped),
                λ good. (
                  subst Good (sym same_acc) good,
                  subst (Later seen) same_seen (Later-refl seen),
                ),
              )
          | inr (entered, q) ↦
              let (known, others) = entered-others state available seen entered q in
              let (grown, after) =
                take_legs-Later (walk legs fuel) state (legs state) entered acc s a
                  (walk-Visits fuel) (λ l k. k) known (rw (q, walk) at e) in
              (
                from_entered entered grown known others,
                grown state known,
                λ good.
                    let (good_acc, later, settled) = after good in
                    (
                      good_acc,
                      (
                        from_entered entered grown known others,
                        final entered later.1 (λ l m. settled l m) others,
                      ),
                    ),
              )
        ]
      where
        from_entered :
            (entered : Seen)
            → Grown entered s
            → Known state entered
            → ((u : String) → (state ≡ u) ⊎ (lookup u entered ≡ lookup u seen))
            → Grown seen s
        from_entered entered grown known others u k = elim (others u) [
          | inl q ↦ subst (λ z. Known z s) q (grown state known)
          | inr q ↦ grown u (ap is_some q ∙ k)
        ]

        final :
            (entered : Seen)
            → ((u : String) → Known u s → Settled u s ⊎ Unchanged entered u s)
            → Settled state s
            → ((u : String) → (state ≡ u) ⊎ (lookup u entered ≡ lookup u seen))
            → (u : String) → Known u s
            → Settled u s ⊎ Unchanged seen u s
        final entered later settled others u k = elim (others u) [
          | inl q ↦ inl (subst (λ z. Settled z s) q settled)
          | inr q ↦ elim (later u k) [
            | inl done ↦ inl done
            | inr (known, same) ↦ inr (sym (ap is_some q) ∙ known, same ∙ ap (get_or []) q)
          ]
        ]

    -- From nothing seen: every state that is recorded in the end is settled, and so is the first.
    pub walk-Settled :
        (fuel : ℕ) (state : String) (available : List String) (acc : A) (s : Seen) (a : A)
        → walk legs fuel state available ([], acc) ≡ some (s, a)
        → Good a
        → Known state s × ((u : String) → Known u s → Settled u s)
    unfolding lookup
    walk-Settled fuel state available acc s a e good =
        let (_, known, after) = walk-Visits fuel state available [] acc s a e in
        (known, λ u k. elim ((after good).1.1 u k) [ inl settled ↦ settled | inr (never, _) ↦ cc ])
