-- ===== src/Builder/Search/Marking.antt =====
-- Marking the targets of a state.
use tramli.Prelude.{
  String, subst, ◌+◌, ◌≤◌, ◌⊎◌, inl, inr, List, [], ◌∷◌, ◌++◌, contains, length, length-append,
  arith, Bool-cases, Member, here, there, Member-cons, Member-nil, Member-append_left,
  Member-append_right, Member-append_cases,
}
use tramli.Pipeline.Available.{contains-Member}
use tramli.Builder.Search.{mark_all}
use tramli.Builder.Search.Fresh.{fresh, fresh-concat_lt}

pub mark_all-old :
    {x : String} (ts visited queue : List String)
    → Member x visited
    → Member x (mark_all ts (visited, queue)).0
unfolding mark_all
mark_all-old [] visited queue m = m
mark_all-old (t ∷ ts) visited queue m = elim (Bool-cases (contains t visited)) [
  | inl e ↦ rw (e, mark_all) (mark_all-old ts visited queue m)
  | inr e ↦
      rw (e, mark_all)
        (mark_all-old ts (visited ++ t ∷ []) (queue ++ t ∷ []) (Member-append_left _ m))
]

pub mark_all-queue_old :
    {x : String} (ts visited queue : List String)
    → Member x queue
    → Member x (mark_all ts (visited, queue)).1
unfolding mark_all
mark_all-queue_old [] visited queue m = m
mark_all-queue_old (t ∷ ts) visited queue m = elim (Bool-cases (contains t visited)) [
  | inl e ↦ rw (e, mark_all) (mark_all-queue_old ts visited queue m)
  | inr e ↦
      rw (e, mark_all)
        (mark_all-queue_old ts (visited ++ t ∷ []) (queue ++ t ∷ []) (Member-append_left _ m))
]

pub mark_all-targets :
    {x : String} (ts visited queue : List String)
    → Member x ts
    → Member x (mark_all ts (visited, queue)).0
unfolding mark_all
mark_all-targets [] visited queue m = absurd (Member-nil m)
mark_all-targets {x} (t ∷ ts) visited queue m = elim (Member-cons m) [
  | inl q ↦ subst (λ z. Member z (mark_all (t ∷ ts) (visited, queue)).0) q marked
  | inr n ↦ elim (Bool-cases (contains t visited)) [
    | inl e ↦ rw (e, mark_all) (mark_all-targets ts visited queue n)
    | inr e ↦ rw (e, mark_all) (mark_all-targets ts (visited ++ t ∷ []) (queue ++ t ∷ []) n)
  ]
]
  where
    marked : Member t (mark_all (t ∷ ts) (visited, queue)).0
    marked = elim (Bool-cases (contains t visited)) [
      | inl e ↦ rw (e, mark_all) (mark_all-old ts visited queue (contains-Member t visited e))
      | inr e ↦
          rw (e, mark_all)
            (mark_all-old ts (visited ++ t ∷ []) (queue ++ t ∷ [])
              (Member-append_right visited here))
    ]

-- What is visited was so before, or is new in the queue.
pub mark_all-visited :
    {x : String} (ts visited queue : List String)
    → Member x (mark_all ts (visited, queue)).0
    → Member x visited ⊎ (Member x (mark_all ts (visited, queue)).1 × Member x ts)
unfolding mark_all
mark_all-visited [] visited queue m = inl m
mark_all-visited {x} (t ∷ ts) visited queue m = elim (Bool-cases (contains t visited)) [
  | inl e ↦ elim (mark_all-visited ts visited queue (rw (e, mark_all) at m)) [
    | inl l ↦ inl l
    | inr (l, n) ↦ inr (rw (e, mark_all) l, there n)
  ]
  | inr e ↦
      elim (mark_all-visited ts (visited ++ t ∷ []) (queue ++ t ∷ []) (rw (e, mark_all) at m)) [
        | inl l ↦ elim (Member-append_cases visited l) [
          | inl o ↦ inl o
          | inr k ↦ elim (Member-cons k) [
            | inl q ↦ inr (
              rw (e, mark_all)
                  (mark_all-queue_old ts (visited ++ t ∷ []) (queue ++ t ∷ [])
                    (subst (λ z. Member z (queue ++ t ∷ [])) q (Member-append_right queue here))),
              subst (λ z. Member z (t ∷ ts)) q here,
            )
            | inr n ↦ absurd (Member-nil n)
          ]
        ]
        | inr (l, n) ↦ inr (rw (e, mark_all) l, there n)
      ]
]

pub mark_all-queue :
    {x : String} (ts visited queue : List String)
    → Member x (mark_all ts (visited, queue)).1
    → Member x queue ⊎ Member x ts
unfolding mark_all
mark_all-queue [] visited queue m = inl m
mark_all-queue {x} (t ∷ ts) visited queue m = elim (Bool-cases (contains t visited)) [
  | inl e ↦ elim (mark_all-queue ts visited queue (rw (e, mark_all) at m)) [
    | inl l ↦ inl l
    | inr n ↦ inr (there n)
  ]
  | inr e ↦ elim (mark_all-queue ts (visited ++ t ∷ []) (queue ++ t ∷ []) (rw (e, mark_all) at m)) [
    | inl l ↦ elim (Member-append_cases queue l) [
      | inl o ↦ inl o
      | inr k ↦ elim (Member-cons k) [
        | inl q ↦ inr (subst (λ z. Member z (t ∷ ts)) q here)
        | inr n ↦ absurd (Member-nil n)
      ]
    ]
    | inr n ↦ inr (there n)
  ]
]

-- Each state that is queued is no longer fresh.
pub mark_all-measure :
    (us ts visited queue : List String)
    → ((t : String) → Member t ts → Member t us)
    → length (mark_all ts (visited, queue)).1 + fresh us (mark_all ts (visited, queue)).0
      ≤ length queue + fresh us visited
unfolding mark_all
mark_all-measure us [] visited queue h = ground arith
mark_all-measure us (t ∷ ts) visited queue h = elim (Bool-cases (contains t visited)) [
  | inl e ↦ rw (e, mark_all) (mark_all-measure us ts visited queue (λ u m. h u (there m)))
  | inr e ↦
      rw (e, mark_all)
        (omega (
          arith,
          mark_all-measure us ts (visited ++ t ∷ []) (queue ++ t ∷ []) (λ u m. h u (there m)),
          length-append queue (t ∷ []),
          fresh-concat_lt us t visited (h t here) e,
        ))
]
