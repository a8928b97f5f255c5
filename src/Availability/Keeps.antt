-- ===== src/Availability/Keeps.antt =====
-- What every step of the walk keeps, holds in the end.
use tramli.Prelude.{
  String, ◌≡◌, subst, ℕ, zero, suc, inl, inr, some, List, [], ◌∷◌, Option-cases, Member, here,
  there,
}
use tramli.Availability.{Seen, enter_state, Leg, Visit, take_leg, take_legs, walk}
use tramli.Availability.Entering.{recorded, and_then-some}

module _ {A : Type 0} (P : A → Type 0) (legs : String → List (Leg A))
    (step : (s : String) (l : Leg A) (base : List String) (acc : A)
      → Member l (legs s)
      → P acc
      → P (l.flow base acc).1) where
  abbrev pub Visits : Visit A → Type 0
  Visits visit =
      (state : String) (available : List String) (seen : Seen) (acc : A) (s : Seen) (a : A)
      → P acc
      → visit state available (seen, acc) ≡ some (s, a)
      → P a

  take_legs-keeps :
      (visit : Visit A) (state : String) (ls : List (Leg A)) (seen : Seen) (acc : A) (s : Seen)
      (a : A)
      → Visits visit
      → ((l : Leg A) → Member l ls → Member l (legs state))
      → P acc
      → take_legs visit state ls (seen, acc) ≡ some (s, a)
      → P a
  unfolding take_legs take_leg
  take_legs-keeps visit state [] seen acc s a h among p e =
      let same : acc ≡ a = cc in subst P same p
  take_legs-keeps visit state (l ∷ ls) seen acc s a h among p e =
      let (s1, a1, first, rest) =
        and_then-some (visit l.target given.0 (seen, given.1)) (take_legs visit state ls) e in
      take_legs-keeps visit state ls s1 a1 s a h (λ k m. among k (there m))
        (h l.target given.0 seen given.1 s1 a1
          (step state l (recorded state seen) acc (among l here) p) first)
        rest
    where
      given : List String × A
      given = l.flow (recorded state seen) acc

  pub walk-keeps : (fuel : ℕ) → Visits (walk legs fuel)
  unfolding walk
  walk-keeps zero state available seen acc s a p e = cc
  walk-keeps (suc fuel) state available seen acc s a p e =
      elim (Option-cases (enter_state state available seen)) [
        | inl dropped ↦
            let q : some (seen, acc) ≡ some (s, a) = rw (dropped, walk) at e in
            let same : acc ≡ a = cc in subst P same p
        | inr (entered, q) ↦
            take_legs-keeps (walk legs fuel) state (legs state) entered acc s a (walk-keeps fuel)
              (λ l k. k) p (rw (q, walk) at e)
      ]
