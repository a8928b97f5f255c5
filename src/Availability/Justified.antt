-- ===== src/Availability/Justified.antt =====
-- Where the keys that the walk records come from.
use tramli.Prelude.{
  String, ◌≡◌, sym, ap, ◌∙◌, subst, ℕ, zero, suc, inl, inr, some, List, [], ◌∷◌, ◌==◌, eq_iff,
  lookup, insert, lookup-insert, arith, Bool-cases, Option-cases, Member, here, there, Member-nil,
}
use tramli.Availability.{Seen, enter_state, Leg, Visit, take_leg, take_legs, walk}
use tramli.Availability.Entering.{entered-writes, recorded, and_then-some}

module _ (Reached : String → Type 0) (Arrives : String → String → Type 0) where
  abbrev pub AllArrive : String → List String → Type 0
  AllArrive s set = (k : String) → Member k set → Arrives s k

  -- The states recorded are reached, and the keys recorded for them arrive there.
  abbrev pub Justified : Seen → Type 0
  Justified seen =
      (u : String) (set : List String) → lookup u seen ≡ some set → Reached u × AllArrive u set

  pub recorded-AllArrive :
      (seen : Seen) (u : String) → Justified seen → AllArrive u (recorded u seen)
  recorded-AllArrive seen u h = elim (Option-cases (lookup u seen)) [
    | inl e ↦ rw e (λ k m. absurd (Member-nil m))
    | inr (set, e) ↦ rw e (h u set e).1
  ]

  enter_state-Justified :
      (state : String) (available : List String) (seen entered : Seen)
      → Reached state
      → AllArrive state available
      → Justified seen
      → enter_state state available seen ≡ some entered
      → Justified entered
  enter_state-Justified state available seen entered reached arrive h e u set q =
      let (kept, written, among) = entered-writes state available seen entered e in
      let at_u : lookup u (insert state kept seen) ≡ some set = ap (lookup u) written ∙ q in
      elim (Bool-cases (state == u)) [
        | inl r ↦
            let same : kept ≡ set = (let p = lookup-insert state u kept seen in ground arith) in
            subst (λ z. Reached z × AllArrive z set) ((eq_iff state u).0 r)
              (reached, λ k m. arrive k (among k (subst (Member k) (sym same) m)))
        | inr r ↦ h u set (let p = lookup-insert state u kept seen in ground arith)
      ]

  module _ {A : Type 0} (legs : String → List (Leg A))
      (step : (s : String) (l : Leg A) (base : List String) (acc : A)
        → Member l (legs s)
        → Reached s
        → AllArrive s base
        → Reached l.target × AllArrive l.target (l.flow base acc).0) where
    abbrev Visits : Visit A → Type 0
    Visits visit =
        (state : String) (available : List String) (seen : Seen) (acc : A) (s : Seen) (a : A)
        → Reached state
        → AllArrive state available
        → Justified seen
        → visit state available (seen, acc) ≡ some (s, a)
        → Justified s

    take_legs-Justified :
        (visit : Visit A) (state : String) (ls : List (Leg A)) (seen : Seen) (acc : A) (s : Seen)
        (a : A)
        → Visits visit
        → ((l : Leg A) → Member l ls → Member l (legs state))
        → Reached state
        → Justified seen
        → take_legs visit state ls (seen, acc) ≡ some (s, a)
        → Justified s
    unfolding take_legs take_leg
    take_legs-Justified visit state [] seen acc s a h among reached just e =
        let same : seen ≡ s = cc in subst Justified same just
    take_legs-Justified visit state (l ∷ ls) seen acc s a h among reached just e =
        let (s1, a1, first, rest) =
          and_then-some (visit l.target given.0 (seen, given.1)) (take_legs visit state ls) e in
        let (onward, arrive) =
          step state l (recorded state seen) acc (among l here) reached
            (recorded-AllArrive seen state just) in
        take_legs-Justified visit state ls s1 a1 s a h (λ k m. among k (there m)) reached
          (h l.target given.0 seen given.1 s1 a1 onward arrive just first) rest
      where
        given : List String × A
        given = l.flow (recorded state seen) acc

    walk-Visits : (fuel : ℕ) → Visits (walk legs fuel)
    unfolding walk
    walk-Visits zero state available seen acc s a reached arrive just e = cc
    walk-Visits (suc fuel) state available seen acc s a reached arrive just e =
        elim (Option-cases (enter_state state available seen)) [
          | inl dropped ↦
              let p : some (seen, acc) ≡ some (s, a) = rw (dropped, walk) at e in
              let same : seen ≡ s = cc in subst Justified same just
          | inr (entered, q) ↦
              take_legs-Justified (walk legs fuel) state (legs state) entered acc s a
                (walk-Visits fuel) (λ l k. k) reached
                (enter_state-Justified state available seen entered reached arrive just q)
                (rw (q, walk) at e)
        ]

    pub walk-Justified :
        (fuel : ℕ) (state : String) (available : List String) (acc : A) (s : Seen) (a : A)
        → Reached state
        → AllArrive state available
        → walk legs fuel state available ([], acc) ≡ some (s, a)
        → Justified s
    unfolding lookup
    walk-Justified fuel state available acc s a reached arrive e =
        walk-Visits fuel state available [] acc s a reached arrive (λ u set q. cc) e
