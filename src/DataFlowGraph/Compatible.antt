-- ===== src/DataFlowGraph/Compatible.antt =====
-- What `isCompatible` of lang/ts/src/data-flow-graph.ts is good for: a step of a pipeline may be
-- replaced.
use tramli.Prelude.{
  String, ◌≡◌, subst, Bool, true, inl, inr, List, [], ◌∷◌, ◌++◌, all, contains, add_all, arith,
  Member, Member-cons, Member-nil, at_here,
}
use tramli.Pipeline.{PipelineStep, Pipeline, PipelineBuilder, built, build}
use tramli.Pipeline.Available.{contains-Member, Member-add_all, add_all-Member, add_all-Member_old}
use tramli.Pipeline.Validation.{Provided, Provided-rest, Provided-cons, build_lem}
use tramli.DataFlowGraph.Queries.{is_compatible}

all-Member :
    (p : String → Bool) (xs : List String) {x : String} → all p xs ≡ true → Member x xs → p x ≡ true
all-Member p [] h m = absurd (Member-nil m)
all-Member p (y ∷ xs) {x} h m = elim (Member-cons m) [
  | inl q ↦ subst (λ z. p z ≡ true) q (ground arith)
  | inr n ↦ all-Member p xs (ground arith) n
]

all-contains :
    (small large : List String) {k : String}
    → all (λ r. contains r (add_all large [])) (add_all small []) ≡ true
    → Member k small
    → Member k large
all-contains small large {k} h m =
    let inside = contains-Member k (add_all large []) (
      all-Member (λ r. contains r (add_all large [])) (add_all small []) h (add_all-Member [] m)) in
    elim (Member-add_all large [] inside) [ inl l ↦ l | inr n ↦ absurd (Member-nil n) ]

is_compatible-requires :
    (ar ap' br bp : List String) {k : String}
    → is_compatible ar ap' br bp ≡ true
    → Member k br
    → Member k ar
unfolding is_compatible
is_compatible-requires ar ap' br bp h m = all-contains br ar (ground arith) m

is_compatible-produces :
    (ar ap' br bp : List String) {k : String}
    → is_compatible ar ap' br bp ≡ true
    → Member k ap'
    → Member k bp
unfolding is_compatible
is_compatible-produces ar ap' br bp h m = all-contains ap' bp (ground arith) m

module _ {W : Type 0} (a b : PipelineStep W) where
  abbrev pub Compatible : Type 0
  Compatible = is_compatible a.requires a.produces b.requires b.produces ≡ true

  Provided-more :
      (steps : List (PipelineStep W)) (available more : List String)
      → ((k : String) → Member k available → Member k more)
      → Provided steps available
      → Provided steps more
  Provided-more steps available more grows h before s key at m = elim (h before s key at m) [
    | inl l ↦ inl (grows key l)
    | inr t ↦ inr t
  ]

  Provided-replace :
      (before after : List (PipelineStep W)) (available : List String)
      → Compatible
      → Provided (before ++ a ∷ after) available
      → Provided (before ++ b ∷ after) available
  Provided-replace [] after available fits h =
      Provided-cons b after available
        (λ k m.
          elim (h [] a k at_here
            (is_compatible-requires a.requires a.produces b.requires b.produces fits m)) [
              | inl l ↦ l
              | inr (t, n, _) ↦ absurd (Member-nil n)
            ])
        (Provided-more after (add_all a.produces available) (add_all b.produces available)
          (λ k m. elim (Member-add_all a.produces available m) [
            | inl l ↦
                add_all-Member available
                  (is_compatible-produces a.requires a.produces b.requires b.produces fits l)
            | inr o ↦ add_all-Member_old b.produces available o
          ])
          (Provided-rest a after available h))
  Provided-replace (x ∷ before) after available fits h =
      Provided-cons x (before ++ b ∷ after) available
        (λ k m. elim (h [] x k at_here m) [ inl l ↦ l | inr (t, n, _) ↦ absurd (Member-nil n) ])
        (Provided-replace before after (add_all x.produces available) fits
          (Provided-rest x (before ++ a ∷ after) available h))

  -- In a pipeline that `build` accepts, a step may be replaced by any step that is compatible with
  -- it: `build` accepts the new pipeline too.
  pub compatible-replaces :
      (c : PipelineBuilder W) (p : Pipeline W) (before after : List (PipelineStep W))
      → c.steps ≡ before ++ a ∷ after
      → build c ≡ built p
      → Compatible
      → (q : Pipeline W) × (build (record c { steps = before ++ b ∷ after }) ≡ built q)
  compatible-replaces c p before after same accepted fits =
      (build_lem (record c { steps = before ++ b ∷ after })).1 (
        Provided-replace before after c.initially_available fits
          (subst (λ z. Provided z c.initially_available) same ((build_lem c).0 (p, accepted))))
