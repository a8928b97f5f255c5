-- ===== src/Builder/Dag/Ordered.antt =====
-- Lists in which every state stands before all that it leads to.
use tramli.Prelude.{
  String, sym, subst, inl, inr, List, [], ◌∷◌, Member, there, Member-cons, Member-nil,
}
use tramli.Builder.Search.{Reaches, start, follow}

module _ (next : String → List String) where
  abbrev pub Ordered : List String → Type 0
  Ordered [] = Unit
  Ordered (x ∷ rest) = ((y : String) → Member y (next x) → Member y rest) × Ordered rest

  -- One or more steps from `x` lead back to it.
  abbrev pub OnCycle : String → Type 0
  OnCycle x = (y : String) × Member y (next x) × Reaches next y x

  Ordered-next :
      (l : List String) {x y : String} → Ordered l → Member x l → Member y (next x) → Member y l
  Ordered-next [] h m k = absurd (Member-nil m)
  Ordered-next (z ∷ l) {x} {y} (first, h) m k = elim (Member-cons m) [
    | inl q ↦ there (first y (subst (λ w. Member y (next w)) (sym q) k))
    | inr n ↦ there (Ordered-next l h n k)
  ]

  pub Ordered-Reaches :
      (l : List String) {x y : String} → Ordered l → Member x l → Reaches next x y → Member y l
  Ordered-Reaches l h m start = m
  Ordered-Reaches l h m (follow r k) = Ordered-next l h (Ordered-Reaches l h m r) k

  pub Ordered-acyclic : (l : List String) {x : String} → Ordered l → Member x l → ¬ OnCycle x
  Ordered-acyclic [] h m c = Member-nil m
  Ordered-acyclic (z ∷ l) {x} (first, h) m (y, k, r) = elim (Member-cons m) [
    | inl q ↦
        let later : Member y l = first y (subst (λ w. Member y (next w)) (sym q) k) in
        Ordered-acyclic l h (Ordered-Reaches l h later r) (y, k, r)
    | inr n ↦ Ordered-acyclic l h n (y, k, r)
  ]
