-- ===== src/Engine/Select/Choice.antt =====
-- What the choice of an external transition promises.
use tramli.Prelude.{String, ◌≡◌, subst, List, [], ◌∷◌, Member, here, Member-filter, nat_eq}
use tramli.Types.{Transition}
use tramli.Engine.Select.{
  selected, is_explicit, trigger_given, requires_given, specificity, max_specificity, most_specific,
  pick_explicit, pick_specific, pick_match, pick_legacy, select_from, select_external,
}

module _ {D : Type 0} where
  most_specific-Member :
      (ts : List (Transition D)) {t : Transition D} → Member t (most_specific ts) → Member t ts
  unfolding most_specific
  most_specific-Member ts m =
      (Member-filter (λ (u : Transition D). nat_eq (specificity u) (max_specificity ts)) ts m).0

module _ {D : Type 0} (state : String) where
  pick_explicit-Member :
      (ts : List (Transition D)) {t : Transition D}
      → pick_explicit ts state ≡ selected t
      → Member t ts
  unfolding pick_explicit
  pick_explicit-Member [] h = cc
  pick_explicit-Member (u ∷ []) {t} h = subst (λ x. Member x (u ∷ [])) (cc) here
  pick_explicit-Member (u ∷ v ∷ ts) h = cc

  pick_specific-Member :
      (ts : List (Transition D)) {t : Transition D}
      → pick_specific ts state ≡ selected t
      → Member t ts
  unfolding pick_specific
  pick_specific-Member [] h = cc
  pick_specific-Member (u ∷ []) {t} h = subst (λ x. Member x (u ∷ [])) (cc) here
  pick_specific-Member (u ∷ v ∷ ts) h = cc

  pick_match-Member :
      (ts : List (Transition D)) {t : Transition D} → pick_match ts state ≡ selected t → Member t ts
  unfolding pick_match
  pick_match-Member [] h = cc
  pick_match-Member (u ∷ us) h = most_specific-Member (u ∷ us) (pick_specific-Member _ h)

  pick_legacy-Member :
      (ts : List (Transition D)) (given : List String) {t : Transition D}
      → pick_legacy ts given state ≡ selected t
      → Member t ts
  unfolding pick_legacy
  pick_legacy-Member [] given h = pick_match-Member [] h
  pick_legacy-Member (u ∷ []) given {t} h = subst (λ x. Member x (u ∷ [])) (cc) here
  pick_legacy-Member (u ∷ v ∷ ts) given h =
      (Member-filter (requires_given given) (u ∷ v ∷ ts) (pick_match-Member _ h)).0

  select_from-Member :
      (explicit ts : List (Transition D)) (given : List String) {t : Transition D}
      → ((u : Transition D) → Member u explicit → Member u ts)
      → select_from explicit ts given state ≡ selected t
      → Member t ts
  unfolding select_from
  select_from-Member [] ts given k h = pick_legacy-Member ts given h
  select_from-Member (u ∷ us) ts given k h =
      k _ (Member-filter (trigger_given given) (u ∷ us) (pick_explicit-Member _ h)).0

  pub select_external-Member :
      (ts : List (Transition D)) (given : List String) {t : Transition D}
      → select_external ts given state ≡ selected t
      → Member t ts
  unfolding select_external
  select_external-Member ts given h =
      select_from-Member _ ts given (λ u m. (Member-filter is_explicit ts m).0) h
