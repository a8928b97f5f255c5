-- ===== src/Builder/Search/Complete.antt =====
-- The search visits exactly what can be reached.
use tramli.Prelude.{
  String, sym, subst, ℕ, zero, suc, ◌+◌, ◌≤◌, ◌⊎◌, inl, inr, ◌↔◌, List, [], ◌∷◌, length, arith,
  Member, here, there, Member-cons, Member-nil,
}
use tramli.Builder.Search.{mark_all, search, Reaches, start, follow}
use tramli.Builder.Search.Fresh.{fresh, fresh_le}
use tramli.Builder.Search.Marking.{
  mark_all-old, mark_all-queue_old, mark_all-targets, mark_all-visited, mark_all-queue,
  mark_all-measure,
}

module _ (next : String → List String) where
  -- The targets of a visited state are visited, or the state is still to be looked at.
  abbrev Open : List String × List String → Type 0
  Open (visited, queue) =
      (x : String)
      → Member x visited
      → Member x queue ⊎ ((y : String) → Member y (next x) → Member y visited)

  abbrev Closed : List String → Type 0
  Closed visited = (x y : String) → Member x visited → Member y (next x) → Member y visited

  Open-step :
      (c : String) (visited queue : List String)
      → Open (visited, c ∷ queue)
      → Open (mark_all (next c) (visited, queue))
  Open-step c visited queue h x m = elim (mark_all-visited (next c) visited queue m) [
    | inr (l, _) ↦ inl l
    | inl old ↦ elim (h x old) [
      | inr closed ↦ inr (λ y k. mark_all-old (next c) visited queue (closed y k))
      | inl waits ↦ elim (Member-cons waits) [
        | inl q ↦ inr (λ y k.
            mark_all-targets (next c) visited queue (subst (λ z. Member y (next z)) (sym q) k))
        | inr n ↦ inl (mark_all-queue_old (next c) visited queue n)
      ]
    ]
  ]

  Open-nil : (visited : List String) → Open (visited, []) → Closed visited
  Open-nil visited h x y m k = elim (h x m) [
    | inl n ↦ absurd (Member-nil n)
    | inr closed ↦ closed y k
  ]

  search-Closed :
      (us : List String) (fuel : ℕ) (visited queue : List String)
      → ((x y : String) → Member y (next x) → Member y us)
      → length queue + fresh us visited ≤ fuel
      → Open (visited, queue)
      → Closed (search next fuel (visited, queue))
  unfolding search
  search-Closed us zero visited [] all enough h = Open-nil visited h
  search-Closed us zero visited (c ∷ queue) all enough h = absurd (omega arith)
  search-Closed us (suc fuel) visited [] all enough h = Open-nil visited h
  search-Closed us (suc fuel) visited (c ∷ queue) all enough h =
      search-Closed us fuel (mark_all (next c) (visited, queue)).0
        (mark_all (next c) (visited, queue)).1 all
        (omega (arith, mark_all-measure us (next c) visited queue (all c)))
        (Open-step c visited queue h)

  search-old :
      {x : String} (fuel : ℕ) (visited queue : List String)
      → Member x visited
      → Member x (search next fuel (visited, queue))
  unfolding search
  search-old zero visited queue m = m
  search-old (suc fuel) visited [] m = m
  search-old (suc fuel) visited (c ∷ queue) m =
      search-old fuel (mark_all (next c) (visited, queue)).0 (mark_all (next c) (visited, queue)).1
        (mark_all-old (next c) visited queue m)

  search-Reaches :
      (root : String) (fuel : ℕ) (visited queue : List String)
      → ((x : String) → Member x visited → Reaches next root x)
      → ((x : String) → Member x queue → Reaches next root x)
      → (x : String) → Member x (search next fuel (visited, queue))
      → Reaches next root x
  unfolding search
  search-Reaches root zero visited queue v q = v
  search-Reaches root (suc fuel) visited [] v q = v
  search-Reaches root (suc fuel) visited (c ∷ queue) v q =
      search-Reaches root fuel (mark_all (next c) (visited, queue)).0
        (mark_all (next c) (visited, queue)).1 seen waiting
    where
      seen : (x : String) → Member x (mark_all (next c) (visited, queue)).0 → Reaches next root x
      seen x m = elim (mark_all-visited (next c) visited queue m) [
        | inl l ↦ v x l
        | inr (_, n) ↦ follow (q c here) n
      ]

      waiting : (x : String) → Member x (mark_all (next c) (visited, queue)).1 → Reaches next root x
      waiting x m = elim (mark_all-queue (next c) visited queue m) [
        | inl l ↦ q x (there l)
        | inr n ↦ follow (q c here) n
      ]

  Closed-Reaches :
      {root x : String} (visited : List String)
      → Closed visited
      → Member root visited
      → Reaches next root x
      → Member x visited
  Closed-Reaches visited closed m start = m
  Closed-Reaches visited closed m (follow r k) = closed _ _ (Closed-Reaches visited closed m r) k

  -- With one round for each possible target and one more, the search visits exactly what the root
  -- reaches.
  pub search_lem :
      (us : List String) (root x : String)
      → ((x y : String) → Member y (next x) → Member y us)
      → Member x (search next (suc (length us)) (root ∷ [], root ∷ [])) ↔ Reaches next root x
  search_lem us root x all = (
    search-Reaches root (suc (length us)) (root ∷ []) (root ∷ []) only only x,
    Closed-Reaches (search next (suc (length us)) (root ∷ [], root ∷ []))
        (search-Closed us (suc (length us)) (root ∷ []) (root ∷ []) all
          (omega (arith, fresh_le us (root ∷ []))) (λ z m. inl m))
        (search-old (suc (length us)) (root ∷ []) (root ∷ []) here),
  )
    where
      only : (z : String) → Member z (root ∷ []) → Reaches next root z
      only z m = elim (Member-cons m) [
        | inl q ↦ subst (Reaches next root) q start
        | inr n ↦ absurd (Member-nil n)
      ]
