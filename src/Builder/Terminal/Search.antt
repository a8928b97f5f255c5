-- ===== src/Builder/Terminal/Search.antt =====
-- What the walk for a terminal state finds.
use tramli.Prelude.{
  String, ◌≡◌, sym, subst, ℕ, zero, suc, ◌<◌, Bool, true, false, ◌⊎◌, inl, inr, Option, none, some,
  List, [], ◌∷◌, contains, add, length, arith, Bool-cases, Option-cases, Member, here, there,
  Member-cons, Member-nil,
}
use tramli.Pipeline.Available.{contains-Member, Member-add, add-Member, add-Member_old}
use tramli.Builder.Search.{Reaches, start, follow}
use tramli.Builder.Search.Fresh.{fresh, fresh_le, fresh-grows, fresh-add_lt}
use tramli.Builder.Terminal.{
  Walk, found, exhausted, crashed, try_all, unless_found, can_reach_terminal,
}

module _ (kind : String → Option Bool) (next : String → List String) where
  pub Reaches-cons : {x y z : String} → Member y (next x) → Reaches next y z → Reaches next x z
  Reaches-cons m start = follow start m
  Reaches-cons m (follow r k) = follow (Reaches-cons m r) k

  -- Not terminal, and all that it leads to is visited.
  abbrev pub Settled : String → List String → Type 0
  Settled x visited = (kind x ≡ some false) × ((y : String) → Member y (next x) → Member y visited)

  -- Nothing is lost, and what is new is settled.
  abbrev pub Grew : List String → List String → Type 0
  Grew before after =
      ((x : String) → Member x before → Member x after)
      × ((x : String) → Member x after → Member x before ⊎ Settled x after)

  -- What a walk from the states `ts` tells.
  abbrev pub Tells : List String → List String → Walk → Type 0
  Tells ts before found =
      (t : String) × (s : String) × Member t ts × Reaches next t s × (kind s ≡ some true)
  Tells ts before (exhausted after) =
      Grew before after × ((t : String) → Member t ts → Member t after)
  Tells ts before (crashed s) = (t : String) × Member t ts × Reaches next t s × (kind s ≡ none)

  Settled-grows :
      {x : String} {before after : List String}
      → ((y : String) → Member y before → Member y after)
      → Settled x before
      → Settled x after
  Settled-grows grows (k, h) = (k, λ y m. grows y (h y m))

  Grew-refl : (visited : List String) → Grew visited visited
  Grew-refl visited = (λ x m. m, λ x m. inl m)

  Grew-trans : {a b c : List String} → Grew a b → Grew b c → Grew a c
  Grew-trans (g, h) (k, l) = (
    λ x m. k x (g x m),
    λ x m. elim (l x m) [
      | inr settled ↦ inr settled
      | inl m ↦ elim (h x m) [ inl old ↦ inl old | inr settled ↦ inr (Settled-grows k settled) ]
    ],
  )

  Tells-after :
      (t : String) (ts : List String) {before after : List String} (w : Walk)
      → Tells ts after w
      → Grew before after
      → Member t after
      → Tells (t ∷ ts) before w
  Tells-after t ts found (u, s, m, r, k) grew seen = (u, s, there m, r, k)
  Tells-after t ts (crashed s) (u, m, r, k) grew seen = (u, there m, r, k)
  Tells-after t ts (exhausted last) (later, all) grew seen = (
    Grew-trans grew later,
    λ u m. elim (Member-cons m) [
      | inl q ↦ subst (λ z. Member z last) q (later.0 _ seen)
      | inr n ↦ all u n
    ],
  )

  Tells-then :
      (t : String) (ts before : List String) (first : Walk) (rest : List String → Walk)
      → Tells (t ∷ []) before first
      → ((after : List String) → Grew before after → Tells ts after (rest after))
      → Tells (t ∷ ts) before (unless_found first rest)
  Tells-then t ts before found rest (u, s, m, r, k) h = elim (Member-cons m) [
    | inl q ↦ (u, s, subst (λ z. Member z (t ∷ ts)) q here, r, k)
    | inr n ↦ absurd (Member-nil n)
  ]
  Tells-then t ts before (crashed s) rest (u, m, r, k) h = elim (Member-cons m) [
    | inl q ↦ (u, subst (λ z. Member z (t ∷ ts)) q here, r, k)
    | inr n ↦ absurd (Member-nil n)
  ]
  Tells-then t ts before (exhausted after) rest (grew, all) h =
      Tells-after t ts (rest after) (h after grew) grew (all _ here)

  module _ (us : List String) (all : (x y : String) → Member y (next x) → Member y us) where
    abbrev Visits : ℕ → (String → List String → Walk) → Type 0
    Visits fuel visit =
        (t : String) (visited : List String)
        → Member t us
        → fresh us visited < fuel
        → Tells (t ∷ []) visited (visit t visited)

    try_all-Tells :
        (fuel : ℕ) (visit : String → List String → Walk) (ts visited : List String)
        → Visits fuel visit
        → ((t : String) → Member t ts → Member t us)
        → fresh us visited < fuel
        → Tells ts visited (try_all visit ts visited)
    unfolding try_all
    try_all-Tells fuel visit [] visited h among enough =
        (Grew-refl visited, λ t m. absurd (Member-nil m))
    try_all-Tells fuel visit (t ∷ ts) visited h among enough =
        Tells-then t ts visited (visit t visited) (try_all visit ts)
          (h t visited (among t here) enough)
          λ after grew.
            try_all-Tells fuel visit ts after h (λ u m. among u (there m))
              (omega (arith, fresh-grows us visited after grew.0))

    -- What the state's own call tells, from what its targets tell.
    Tells-state :
        (state : String) (visited : List String) (w : Walk)
        → kind state ≡ some false
        → Tells (next state) (add state visited) w
        → Tells (state ∷ []) visited w
    Tells-state state visited found k (t, s, m, r, h) = (state, s, here, Reaches-cons m r, h)
    Tells-state state visited (crashed s) k (t, m, r, h) = (state, here, Reaches-cons m r, h)
    Tells-state state visited (exhausted after) k ((grows, settled), seen) = (
      (λ x m. grows x (add-Member_old state visited m), was_settled),
      λ t m. elim (Member-cons m) [
        | inl q ↦ subst (λ z. Member z after) q (grows state (add-Member state visited))
        | inr n ↦ absurd (Member-nil n)
      ],
    )
      where
        was_settled : (x : String) → Member x after → Member x visited ⊎ Settled x after
        was_settled x m = elim (settled x m) [
          | inr h ↦ inr h
          | inl added ↦ elim (Member-add visited added) [
            | inr old ↦ inl old
            | inl q ↦ inr (subst (λ z. Settled z after) q (k, seen))
          ]
        ]

    can_reach_terminal-Visits : (fuel : ℕ) → Visits fuel (can_reach_terminal kind next fuel)
    unfolding can_reach_terminal
    can_reach_terminal-Visits zero t visited m enough = absurd (omega arith)
    can_reach_terminal-Visits (suc fuel) t visited m enough = elim (Option-cases (kind t)) [
      | inl e ↦ rw (e, can_reach_terminal) (t, here, start, e)
      | inr (true, e) ↦ rw (e, can_reach_terminal) (t, t, here, start, e)
      | inr (false, e) ↦ elim (Bool-cases (contains t visited)) [
        | inl seen ↦
            rw (e, can_reach_terminal, seen)
              (
                Grew-refl visited,
                λ u k. elim (Member-cons k) [
                  | inl q ↦ subst (λ z. Member z visited) q (contains-Member t visited seen)
                  | inr n ↦ absurd (Member-nil n)
                ],
              )
        | inr new ↦
            rw (e, can_reach_terminal, new)
              (Tells-state t visited _ e (
                try_all-Tells fuel (can_reach_terminal kind next fuel) (next t) (add t visited)
                  (can_reach_terminal-Visits fuel) (all t)
                  (omega (arith, fresh-add_lt us t visited m new))))
      ]
    ]

  -- From nothing visited: the walk finds a terminal state that the root reaches, or crashes at a state
  -- that the root reaches and that is not configured, or all that the root reaches is not terminal.
  abbrev pub Answers : String → Walk → Type 0
  Answers root found = (s : String) × Reaches next root s × (kind s ≡ some true)
  Answers root (exhausted after) = (s : String) → Reaches next root s → kind s ≡ some false
  Answers root (crashed s) = Reaches next root s × (kind s ≡ none)

  Tells-Answers : (root : String) (w : Walk) → Tells (root ∷ []) [] w → Answers root w
  Tells-Answers root found (t, s, m, r, k) = elim (Member-cons m) [
    | inl q ↦ (s, subst (λ z. Reaches next z s) (sym q) r, k)
    | inr n ↦ absurd (Member-nil n)
  ]
  Tells-Answers root (crashed s) (t, m, r, k) = elim (Member-cons m) [
    | inl q ↦ (subst (λ z. Reaches next z s) (sym q) r, k)
    | inr n ↦ absurd (Member-nil n)
  ]
  Tells-Answers root (exhausted after) ((grows, settled), seen) =
      λ s r. (all_settled s (closed s r)).0
    where
      all_settled : (x : String) → Member x after → Settled x after
      all_settled x m = elim (settled x m) [ inl n ↦ absurd (Member-nil n) | inr h ↦ h ]

      closed : (x : String) → Reaches next root x → Member x after
      closed x start = seen root here
      closed x (follow r k) = (all_settled _ (closed _ r)).1 x k

  pub can_reach_terminal-Answers :
      (us : List String) (root : String)
      → ((x y : String) → Member y (next x) → Member y us)
      → Answers root (can_reach_terminal kind next (suc (length (root ∷ us))) root [])
  can_reach_terminal-Answers us root all = Tells-Answers root _ (
      can_reach_terminal-Visits (root ∷ us) (λ x y m. there (all x y m)) (suc (length (root ∷ us)))
        root [] here (omega (arith, fresh_le (root ∷ us) [])))
