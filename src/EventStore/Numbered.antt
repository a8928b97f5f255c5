-- ===== src/EventStore/Numbered.antt =====
-- The numbers of marks: those of a sequence in two parts, those where all marks are true, and their
-- bound.
use tramli.Prelude.{
  ◌≡◌, refl, ◌∙◌, ap, ℕ, suc, ◌+◌, ◌≤◌, Bool, true, false, List, [], ◌∷◌, ◌++◌, length, arith, inl,
  inr, Member, here, there, Member-cons, Member-nil,
}
use tramli.EventStore.History.{count_from, numbered}

pub numbered-append :
    (n : ℕ) (bs cs : List Bool)
    → numbered n (bs ++ cs) ≡ numbered n bs ++ numbered (n + length bs) cs
numbered-append n [] cs = let same : n ≡ n + 0 = omega arith in ap (λ z. numbered z cs) same
numbered-append n (true ∷ bs) cs =
    let same : n + 1 + length bs ≡ n + suc (length bs) = omega arith in
    ap (λ z. (n + 1) ∷ z)
      (numbered-append (n + 1) bs cs ∙ ap (λ z. numbered (n + 1) bs ++ numbered z cs) same)
numbered-append n (false ∷ bs) cs =
    let same : n + 1 + length bs ≡ n + suc (length bs) = omega arith in
    numbered-append (n + 1) bs cs ∙ ap (λ z. numbered (n + 1) bs ++ numbered z cs) same

pub numbered-count_from :
    (n : ℕ) (bs : List Bool) → ¬ Member false bs → numbered n bs ≡ count_from n (length bs)
numbered-count_from n [] h = refl
numbered-count_from n (true ∷ bs) h =
    ap (λ z. (n + 1) ∷ z) (numbered-count_from (n + 1) bs (λ m. h (there m)))
numbered-count_from n (false ∷ bs) h = absurd (h here)

pub numbered-bound : (n : ℕ) (bs : List Bool) {v : ℕ} → Member v (numbered n bs) → v ≤ n + length bs
numbered-bound n [] m = absurd (Member-nil m)
numbered-bound n (true ∷ bs) m = elim (Member-cons m) [
  | inl q ↦ omega (arith, q)
  | inr k ↦ omega (arith, numbered-bound (n + 1) bs k)
]
numbered-bound n (false ∷ bs) m = omega (arith, numbered-bound (n + 1) bs m)
