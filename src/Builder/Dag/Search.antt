-- ===== src/Builder/Dag/Search.antt =====
-- What the search for a cycle finds.
use tramli.Prelude.{
  String, ◌==◌, eq_refl, ◌≡◌, refl, sym, ap, ◌∙◌, subst, ℕ, zero, suc, ◌<◌, true, false, not, ◌⊎◌,
  inl, inr, List, [], ◌∷◌, ◌++◌, contains, add, delete, filter, arith, Bool-cases, Member, here,
  there, Member-cons, Member-nil,
}
use tramli.Pipeline.Available.{
  contains-Member, Member-contains, Member-add, add-Member, add-Member_old,
}
use tramli.Builder.Search.{Reaches, start, follow}
use tramli.Builder.Search.Fresh.{fresh, fresh-grows, fresh-add_lt}
use tramli.Builder.Dag.{CycleWalk, cycle, clear, unless_cycle, leave, visit_all, has_cycle}
use tramli.Builder.Dag.Ordered.{Ordered, OnCycle}

delete-add : (k : String) (s : List String) → contains k s ≡ false → delete k (add k s) ≡ s
unfolding delete add contains
delete-add k s h = rw h (unchanged s h)
  where
    unchanged :
        (t : List String) → contains k t ≡ false → filter (λ j. not (j == k)) (t ++ k ∷ []) ≡ t
    unchanged [] q = rw (eq_refl k) refl
    unchanged (j ∷ t) q = ground (arith, unchanged t)

module _ (next : String → List String) where
  -- The finished states `done`, in an order, with all that is visited finished or on the stack.
  pub record Finished (visited stack done : List String) : Type 0 where
    pub ordered : Ordered next done
    pub split : (x : String) → Member x visited → Member x done ⊎ Member x stack

module _ (next : String → List String) (root : String) where
  -- What a walk over `ns` tells: a cycle that the root leads to; or the same stack, and all of `ns`
  -- finished.
  abbrev pub Tells : List String → List String → List String → List String → CycleWalk → Type 0
  Tells ns visited stack done cycle = (x : String) × Reaches next root x × OnCycle next x
  Tells ns visited stack done (clear after left) =
      (left ≡ stack)
      × ((x : String) → Member x visited → Member x after)
      × ((more : List String) × Finished next after stack more
          × ((x : String) → Member x done → Member x more)
          × ((x : String) → Member x ns → Member x more))

  -- The stack is visited and leads to the node, and the root leads to it.
  abbrev pub StackPath : String → List String → List String → Type 0
  StackPath node visited stack =
      Reaches next root node
      × ((x : String) → Member x stack → Member x visited × Reaches next x node)

  Tells-after :
      (n : String) (ns visited stack done after more : List String) (w : CycleWalk)
      → ((x : String) → Member x visited → Member x after)
      → ((x : String) → Member x done → Member x more)
      → Member n more
      → Tells ns after stack more w
      → Tells (n ∷ ns) visited stack done w
  Tells-after n ns visited stack done after more cycle grows keeps got t = t
  Tells-after n ns visited stack done after more (clear last left) grows keeps got
        (same, later, (end, fin, kept, all)) =
      (
        same,
        λ x m. later x (grows x m),
        (
          end,
          fin,
          λ x m. kept x (keeps x m),
          λ x m. elim (Member-cons m) [
            | inl q ↦ subst (λ z. Member z end) q (kept n got)
            | inr k ↦ all x k
          ],
        ),
      )

  Tells-then :
      (n : String) (ns visited stack done : List String) (first : CycleWalk)
      (rest : List String → List String → CycleWalk)
      → Tells (n ∷ []) visited stack done first
      → ((after more : List String)
          → ((x : String) → Member x visited → Member x after)
          → Finished next after stack more
          → Tells ns after stack more (rest after stack))
      → Tells (n ∷ ns) visited stack done (unless_cycle first rest)
  Tells-then n ns visited stack done cycle rest t k = t
  Tells-then n ns visited stack done (clear after left) rest (same, grows, (more, fin, keeps, got))
        k =
      Tells-after n ns visited stack done after more (rest after left) grows keeps (got n here)
        (subst (λ z. Tells ns after stack more (rest after z)) (sym same) (k after more grows fin))

  Finished-add :
      (node : String) (visited stack done : List String)
      → Finished next visited stack done
      → Finished next (add node visited) (add node stack) done
  Finished-add node visited stack done fin = record {
    ordered = fin.ordered;
    split = λ x m. elim (Member-add visited m) [
      | inl q ↦ inr (subst (λ z. Member z (add node stack)) q (add-Member node stack))
      | inr old ↦ elim (fin.split x old) [
        | inl d ↦ inl d
        | inr s ↦ inr (add-Member_old node stack s)
      ]
    ];
  }

  StackPath-add :
      (node : String) (visited stack : List String)
      → StackPath node visited stack
      → StackPath node (add node visited) (add node stack)
  StackPath-add node visited stack (reached, leads) = (
    reached,
    λ x m. elim (Member-add stack m) [
      | inl q ↦ (
        subst (λ z. Member z (add node visited)) q (add-Member node visited),
        subst (λ z. Reaches next z node) q start,
      )
      | inr old ↦ (add-Member_old node visited (leads x old).0, (leads x old).1)
    ],
  )

  Finished-leave :
      (node : String) (after stack more : List String)
      → Finished next after (add node stack) more
      → ((x : String) → Member x (next node) → Member x more)
      → Finished next after stack (node ∷ more)
  Finished-leave node after stack more fin all = record {
    ordered = (all, fin.ordered);
    split = λ x m. elim (fin.split x m) [
      | inl d ↦ inl (there d)
      | inr s ↦ elim (Member-add stack s) [
        | inl q ↦ inl (subst (λ z. Member z (node ∷ more)) q here)
        | inr old ↦ inr old
      ]
    ];
  }

  -- The node's own call, from what the loop over all that it leads to tells.
  leave-Tells :
      (node : String) (visited stack done : List String) (w : CycleWalk)
      → contains node stack ≡ false
      → Tells (next node) (add node visited) (add node stack) done w
      → Tells (node ∷ []) visited stack done (leave node w)
  leave-Tells node visited stack done cycle off t = t
  leave-Tells node visited stack done (clear after left) off
        (same, grows, (more, fin, keeps, all)) =
      (
        ap (delete node) same ∙ delete-add node stack off,
        λ x m. grows x (add-Member_old node visited m),
        (
          node ∷ more,
          Finished-leave node after stack more fin all,
          λ x m. there (keeps x m),
          λ x m. elim (Member-cons m) [
            | inl q ↦ subst (λ z. Member z (node ∷ more)) q here
            | inr n ↦ absurd (Member-nil n)
          ],
        ),
      )

  module _ (us : List String) (all : (x y : String) → Member y (next x) → Member y us) where
    abbrev Visits : ℕ → (String → List String → List String → CycleWalk) → Type 0
    Visits fuel visit =
        (n : String) (visited stack done : List String)
        → Member n us
        → fresh us visited < fuel
        → contains n visited ≡ false
        → Finished next visited stack done
        → StackPath n visited stack
        → Tells (n ∷ []) visited stack done (visit n visited stack)

    visit_all-Tells :
        (fuel : ℕ) (visit : String → List String → List String → CycleWalk) (node : String)
        (ns visited stack done : List String)
        → Visits fuel visit
        → ((n : String) → Member n ns → Member n (next node))
        → fresh us visited < fuel
        → Finished next visited stack done
        → StackPath node visited stack
        → Tells ns visited stack done (visit_all visit ns visited stack)
    unfolding visit_all
    visit_all-Tells fuel visit node [] visited stack done h among enough fin path =
        (refl, λ x m. m, (done, fin, λ x m. m, λ x m. absurd (Member-nil m)))
    visit_all-Tells fuel visit node (n ∷ ns) visited stack done h among enough fin
          (reached, leads) =
        elim (Bool-cases (contains n stack)) [
          | inl on ↦
              rw (on, visit_all)
                (node, reached, (n, among n here, (leads n (contains-Member n stack on)).1))
          | inr off ↦ elim (Bool-cases (contains n visited)) [
            | inl old ↦
                rw (off, visit_all, old)
                  (Tells-after n ns visited stack done visited done _ (λ x m. m) (λ x m. m)
                    (finished off (fin.split n (contains-Member n visited old)))
                    (visit_all-Tells fuel visit node ns visited stack done h
                      (λ m k. among m (there k)) enough fin (reached, leads)))
            | inr new ↦
                rw (off, visit_all, new)
                  (Tells-then n ns visited stack done (visit n visited stack) (visit_all visit ns)
                    (h n visited stack done (all node n (among n here)) enough new fin (
                      follow reached (among n here),
                      λ x m. ((leads x m).0, follow (leads x m).1 (among n here)),
                    ))
                    λ after more grows fin_after.
                      visit_all-Tells fuel visit node ns after stack more h
                        (λ m k. among m (there k))
                        (omega (arith, fresh-grows us visited after grows)) fin_after
                        (reached, λ x m. (grows x (leads x m).0, (leads x m).1)))
          ]
        ]
      where
        finished : contains n stack ≡ false → Member n done ⊎ Member n stack → Member n done
        finished off (inl d) = d
        finished off (inr s) = absurd (differ (sym (Member-contains s) ∙ off))
          where
            differ : ¬ true ≡ false
            differ q = cc

    pub has_cycle-Visits : (fuel : ℕ) → Visits fuel (has_cycle next fuel)
    unfolding has_cycle
    has_cycle-Visits zero n visited stack done m enough new fin path = absurd (omega arith)
    has_cycle-Visits (suc fuel) n visited stack done m enough new fin path =
        leave-Tells n visited stack done _ off (
          visit_all-Tells fuel (has_cycle next fuel) n (next n) (add n visited) (add n stack) done
            (has_cycle-Visits fuel) (λ k l. l) (omega (arith, fresh-add_lt us n visited m new))
            (Finished-add n visited stack done fin) (StackPath-add n visited stack path))
      where
        not_seen : contains n stack ≡ true → ⊥
        not_seen h =
            absurd (differ (sym (Member-contains (path.1 n (contains-Member n stack h)).0) ∙ new))
          where
            differ : ¬ true ≡ false
            differ q = cc

        off : contains n stack ≡ false
        off = elim (Bool-cases (contains n stack)) [ inl h ↦ absurd (not_seen h) | inr h ↦ h ]
