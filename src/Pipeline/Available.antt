-- ===== src/Pipeline/Available.antt =====
-- Sets of keys: membership in what `add_all` gives.
use tramli.Prelude.{
  String, ◌≡◌, true, ◌⊎◌, inl, inr, ◌==◌, eq_iff, eq_refl, List, [], ◌∷◌, contains, add, add_all,
  arith, Bool-cases, Member, here, there, subst, Member-append_left, Member-append_right,
  Member-append_cases, Member-cons, Member-nil,
}

pub contains-Member : (k : String) (s : List String) → contains k s ≡ true → Member k s
unfolding contains
contains-Member k [] h = cc
contains-Member k (j ∷ s) h = elim (Bool-cases (j == k)) [
  | inl e ↦ subst (λ z. Member z (j ∷ s)) (ground (arith, eq_iff j k)) here
  | inr e ↦ there (contains-Member k s (rw e at h))
]

pub Member-contains : {k : String} {s : List String} → Member k s → contains k s ≡ true
unfolding contains
Member-contains {k} here = rw (eq_refl k)
Member-contains {k} (there {x} m) = ground (arith, Member-contains m)

pub Member-add : {k j : String} (s : List String) → Member k (add j s) → (j ≡ k) ⊎ Member k s
unfolding add
Member-add {k} {j} s m = elim (Bool-cases (contains j s)) [
  | inl e ↦ inr (rw e at m)
  | inr e ↦ elim (Member-append_cases s (rw e at m)) [
    | inl l ↦ inr l
    | inr r ↦ elim (Member-cons r) [ inl q ↦ inl q | inr n ↦ absurd (Member-nil n) ]
  ]
]

pub add-Member : (j : String) (s : List String) → Member j (add j s)
unfolding add
add-Member j s = elim (Bool-cases (contains j s)) [
  | inl e ↦ rw e (contains-Member j s e)
  | inr e ↦ rw e (Member-append_right s here)
]

pub add-Member_old : {k : String} (j : String) (s : List String) → Member k s → Member k (add j s)
unfolding add
add-Member_old j s m = elim (Bool-cases (contains j s)) [
  | inl e ↦ rw e m
  | inr e ↦ rw e (Member-append_left _ m)
]

pub Member-add_all :
    {k : String} (ks s : List String) → Member k (add_all ks s) → Member k ks ⊎ Member k s
unfolding add_all
Member-add_all [] s m = inr m
Member-add_all (j ∷ ks) s m = elim (Member-add_all ks (add j s) m) [
  | inl l ↦ inl (there l)
  | inr r ↦ elim (Member-add s r) [
    | inl q ↦ inl (subst (λ z. Member z (j ∷ ks)) q here)
    | inr o ↦ inr o
  ]
]

pub add_all-Member_old : {k : String} (ks s : List String) → Member k s → Member k (add_all ks s)
unfolding add_all
add_all-Member_old [] s m = m
add_all-Member_old (j ∷ ks) s m = add_all-Member_old ks (add j s) (add-Member_old j s m)

pub add_all-Member :
    {k : String} {ks : List String} (s : List String) → Member k ks → Member k (add_all ks s)
unfolding add_all
add_all-Member {k} s (here {xs = ks}) = add_all-Member_old ks (add k s) (add-Member k s)
add_all-Member s (there {x} {xs} m) = add_all-Member (add x s) m
