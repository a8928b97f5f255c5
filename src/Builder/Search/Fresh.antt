-- ===== src/Builder/Search/Fresh.antt =====
-- The number of states that a search has not visited yet.
use tramli.Prelude.{
  String, ◌≡◌, ap, ℕ, ◌≤◌, ◌<◌, false, not, inl, inr, ◌==◌, ◌||◌, eq_iff, List, [], ◌∷◌, ◌++◌,
  contains, add, filter, length, arith, Bool-cases, Member, Member-cons, Member-nil,
}
use tramli.Pipeline.Available.{contains-Member, Member-contains}

-- How many entries of `us` are not visited.
abbrev pub fresh : List String → List String → ℕ
fresh us visited = length (filter (λ u. not (contains u visited)) us)

contains-concat :
    (u t : String) (visited : List String)
    → contains u (visited ++ t ∷ []) ≡ (contains u visited || t == u)
unfolding contains
contains-concat u t [] = ground arith
contains-concat u t (v ∷ visited) = ground (arith, contains-concat u t visited)

pub fresh-concat_le :
    (us : List String) (t : String) (visited : List String)
    → fresh us (visited ++ t ∷ []) ≤ fresh us visited
fresh-concat_le [] t visited = ground arith
fresh-concat_le (u ∷ us) t visited =
    ground (arith, contains-concat u t visited, fresh-concat_le us t visited)

pub fresh-concat_lt :
    (us : List String) (t : String) (visited : List String)
    → Member t us
    → contains t visited ≡ false
    → fresh us (visited ++ t ∷ []) < fresh us visited
fresh-concat_lt [] t visited m new = absurd (Member-nil m)
fresh-concat_lt (u ∷ us) t visited m new = elim (Member-cons m) [
  | inl q ↦ ground (
    arith,
    contains-concat u t visited,
    fresh-concat_le us t visited,
    eq_iff t u,
    ap (λ z. contains z visited) q,
  )
  | inr n ↦ ground (arith, contains-concat u t visited, fresh-concat_lt us t visited n new)
]

pub fresh_le : (us visited : List String) → fresh us visited ≤ length us
fresh_le [] visited = ground arith
fresh_le (u ∷ us) visited = ground (arith, fresh_le us visited)

-- The more is visited, the less is fresh.
pub fresh-grows :
    (us before after : List String)
    → ((x : String) → Member x before → Member x after)
    → fresh us after ≤ fresh us before
fresh-grows [] before after grows = ground arith
fresh-grows (u ∷ us) before after grows = elim (Bool-cases (contains u before)) [
  | inl e ↦
      let still = Member-contains (grows u (contains-Member u before e)) in
      ground (arith, fresh-grows us before after grows)
  | inr e ↦ ground (arith, fresh-grows us before after grows)
]

pub fresh-add_lt :
    (us : List String) (t : String) (visited : List String)
    → Member t us
    → contains t visited ≡ false
    → fresh us (add t visited) < fresh us visited
unfolding add
fresh-add_lt us t visited m new = rw new (fresh-concat_lt us t visited m new)
