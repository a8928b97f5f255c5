-- ===== src/Availability/Measure.antt =====
-- What gets smaller with each visit that is not dropped.
use tramli.Prelude.{
  String, ◌==◌, eq_iff, ◌≡◌, refl, sym, ap, ◌∙◌, subst, ℕ, suc, ◌+◌, ◌≤◌, ◌<◌, Bool, true, false,
  inl, inr, Option, none, some, List, [], ◌∷◌, all, filter, length, contains, lookup, insert,
  lookup-insert, lookup-insert_self, arith, Bool-cases, Option-cases, Member, here, there,
  Member-cons, Member-nil, Member-filter,
}
use tramli.Pipeline.Available.{contains-Member, Member-contains}
use tramli.Availability.{Seen, revisit, enter_state, budget}

-- How many entries of the list pass.
abbrev pub count : (String → Bool) → List String → ℕ
count p ks = length (filter p ks)

pub count_le : (p : String → Bool) (ks : List String) → count p ks ≤ length ks
count_le p [] = ground arith
count_le p (k ∷ ks) = ground (arith, count_le p ks)

count-implied :
    (p q : String → Bool) (ks : List String)
    → ((k : String) → p k ≡ true → q k ≡ true)
    → count p ks ≤ count q ks
count-implied p q [] h = ground arith
count-implied p q (k ∷ ks) h = ground (arith, h k, count-implied p q ks h)

count-implied_lt :
    (p q : String → Bool) (ks : List String) {k : String}
    → ((k : String) → p k ≡ true → q k ≡ true)
    → Member k ks
    → q k ≡ true
    → p k ≡ false
    → count p ks < count q ks
count-implied_lt p q [] h m yes_q no_p = absurd (Member-nil m)
count-implied_lt p q (j ∷ ks) {k} h m yes_q no_p = elim (Member-cons m) [
  | inl e ↦
      let q_j : q j ≡ true = ap q e ∙ yes_q in
      let p_j : p j ≡ false = ap p e ∙ no_p in ground (arith, count-implied p q ks h)
  | inr n ↦ ground (arith, h j, count-implied_lt p q ks h n yes_q no_p)
]

-- One that fails the test, where not all pass.
all-false :
    (p : String → Bool) (xs : List String)
    → all p xs ≡ false
    → (x : String) × Member x xs × (p x ≡ false)
all-false p [] h = cc
all-false p (x ∷ xs) h = elim (Bool-cases (p x)) [
  | inl e ↦ let (y, m, q) = all-false p xs (rw e at h) in (y, there m, q)
  | inr e ↦ (x, here, e)
]

abbrev pub Within : List String → List String → Type 0
Within ks xs = (x : String) → Member x xs → Member x ks

module _ (states keys : List String) where
  abbrev weigh : Option (List String) → ℕ
  weigh none = suc (length keys)
  weigh (some set) = count (λ k. contains k set) keys

  -- A state not seen weighs more than any set of keys.
  abbrev pub weight : Seen → String → ℕ
  weight seen s = weigh (lookup s seen)

  abbrev total : (String → ℕ) → List String → ℕ
  total f [] = 0
  total f (s ∷ ss) = f s + total f ss

  abbrev pub measure : Seen → ℕ
  measure seen = total (weight seen) states

  total-le :
      (f g : String → ℕ) (ss : List String) → ((s : String) → f s ≤ g s) → total f ss ≤ total g ss
  total-le f g [] h = ground arith
  total-le f g (s ∷ ss) h = omega (arith, h s, total-le f g ss h)

  total-lt :
      (f g : String → ℕ) (ss : List String) {s : String}
      → ((s : String) → f s ≤ g s)
      → Member s ss
      → f s < g s
      → total f ss < total g ss
  total-lt f g [] h m lt = absurd (Member-nil m)
  total-lt f g (r ∷ ss) {s} h m lt = elim (Member-cons m) [
    | inl q ↦
        let lt_r : f r < g r = subst (λ z. f z < g z) (sym q) lt in omega (arith, total-le f g ss h)
    | inr n ↦ omega (arith, h r, total-lt f g ss h n lt)
  ]

  weigh_le : (o : Option (List String)) → weigh o ≤ suc (length keys)
  weigh_le none = omega arith
  weigh_le (some set) = omega (arith, count_le (λ k. contains k set) keys)

  total-budget : (seen : Seen) (ss : List String) → total (weight seen) ss ≤ budget ss (length keys)
  unfolding budget
  total-budget seen [] = ground arith
  total-budget seen (s ∷ ss) = omega (arith, weigh_le (lookup s seen), total-budget seen ss)

  pub measure-budget : (seen : Seen) → measure seen ≤ budget states (length keys)
  measure-budget seen = total-budget seen states

  -- Only known keys are recorded.
  abbrev pub Inside : Seen → Type 0
  Inside seen = (s : String) (set : List String) → lookup s seen ≡ some set → Within keys set

  pub Inside-insert :
      (state : String) (set : List String) (seen : Seen)
      → Within keys set
      → Inside seen
      → Inside (insert state set seen)
  Inside-insert state set seen within h s other e = elim (Bool-cases (state == s)) [
    | inl q ↦
        let same : set ≡ other = (let p = lookup-insert state s set seen in ground arith) in
        subst (Within keys) same within
    | inr q ↦ h s other (let p = lookup-insert state s set seen in ground arith)
  ]

  -- A write that makes the state's weight less makes the measure less.
  measure-insert :
      (state : String) (set : List String) (seen : Seen)
      → Member state states
      → count (λ k. contains k set) keys < weight seen state
      → measure (insert state set seen) < measure seen
  measure-insert state set seen m less =
      total-lt (weight (insert state set seen)) (weight seen) states everywhere m written
    where
      written : weight (insert state set seen) state < weight seen state
      written = let same = ap weigh (lookup-insert_self state set seen) in omega (arith, same, less)

      everywhere : (s : String) → weight (insert state set seen) s ≤ weight seen s
      everywhere s = elim (Bool-cases (state == s)) [
        | inl q ↦
            subst (λ z. weight (insert state set seen) z ≤ weight seen z) ((eq_iff state s).0 q)
              (omega (arith, written))
        | inr q ↦
            let other : lookup s (insert state set seen) ≡ lookup s seen =
              lookup-insert state s set seen ∙ rw q refl in
            omega (arith, ap weigh other)
      ]

  revisit-measure :
      (state : String) (available existing : List String) (seen entered : Seen)
      → Member state states
      → Inside seen
      → lookup state seen ≡ some existing
      → revisit state available existing seen ≡ some entered
      → (measure entered < measure seen) × Inside entered
  unfolding revisit
  revisit-measure state available existing seen entered m h old e =
      elim (Bool-cases (all (λ a. contains a existing) available)) [
        | inl q ↦ absurd (none_is_not_some (rw q at e))
        | inr q ↦ elim (Bool-cases (all (λ a. contains a available) existing)) [
          | inl r ↦ absurd (none_is_not_some (rw (q, r) at e))
          | inr r ↦
              let same : insert state kept seen ≡ entered =
                (let p : some (insert state kept seen) ≡ some entered = rw (q, r) at e in cc) in
              subst (λ z. (measure z < measure seen) × Inside z) same
                (
                  measure-insert state kept seen m (shrinks r),
                  Inside-insert state kept seen known h,
                )
        ]
      ]
    where
      kept : List String
      kept = filter (λ a. contains a available) existing

      none_is_not_some : ¬ none ≡ some entered
      none_is_not_some p = cc

      known : Within keys kept
      known x n = h state existing old x (Member-filter (λ a. contains a available) existing n).0

      true_is_not_false : ¬ true ≡ false
      true_is_not_false p = cc

      still : (k : String) → contains k kept ≡ true → contains k existing ≡ true
      still k p =
          Member-contains
            ((Member-filter (λ a. contains a available) existing (contains-Member k kept p)).0)

      dropped : (k : String) → contains k available ≡ false → contains k kept ≡ false
      dropped k gone = elim (Bool-cases (contains k kept)) [
        | inl p ↦
            let there_is =
              (Member-filter (λ a. contains a available) existing (contains-Member k kept p)).1 in
            absurd (true_is_not_false (sym there_is ∙ gone))
        | inr p ↦ p
      ]

      shrinks :
          all (λ a. contains a available) existing ≡ false
          → count (λ k. contains k kept) keys < weight seen state
      shrinks r =
          let (lost, among, gone) = all-false (λ a. contains a available) existing r in
          let weighs = ap weigh old in
          omega (
            arith,
            weighs,
            count-implied_lt (λ k. contains k kept) (λ k. contains k existing) keys still
                (h state existing old lost among) (Member-contains among) (dropped lost gone),
          )

  pub enter_state-measure :
      (state : String) (available : List String) (seen entered : Seen)
      → Member state states
      → Within keys available
      → Inside seen
      → enter_state state available seen ≡ some entered
      → (measure entered < measure seen) × Inside entered
  unfolding enter_state revisit
  enter_state-measure state available seen entered m within h e =
      elim (Option-cases (lookup state seen)) [
        | inl new ↦
            let same : insert state available seen ≡ entered =
              (let p : some (insert state available seen) ≡ some entered =
                  rw (new, enter_state) at e in
                cc) in
            subst (λ z. (measure z < measure seen) × Inside z) same
              (
                measure-insert state available seen m (
                    let p = ap weigh new in
                    omega (arith, p, count_le (λ k. contains k available) keys)),
                Inside-insert state available seen within h,
              )
        | inr (existing, old) ↦
            revisit-measure state available existing seen entered m h old
              (rw (old, enter_state) at e)
      ]
