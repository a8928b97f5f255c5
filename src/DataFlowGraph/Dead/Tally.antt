-- ===== src/DataFlowGraph/Dead/Tally.antt =====
-- The sets of keys that `traverse` collects agree with the nodes that it collects.
use tramli.Prelude.{
  String, ◌==◌, eq_iff, ◌≡◌, refl, sym, ap, ◌∙◌, subst, ◌↔◌, ◌⊎◌, inl, inr, true, false,
  if◌then◌else◌, Option, none, some, get_or, List, [], ◌∷◌, ◌++◌, map, lookup, lookup-insert, Dict,
  add, add_all, Bool-cases, Member, here, Member-nil, Member-append_right,
}
use tramli.Types.{Transition, TransitionGuard, BranchProcessor, StateProcessor}
use tramli.FlowDefinition.{FlowDefinition, transitions_from}
use tramli.Pipeline.Available.{
  Member-add, add-Member, add-Member_old, Member-add_all, add_all-Member,
}
use tramli.Availability.{Seen, Leg}
use tramli.Availability.Keeps.{walk-keeps}
use tramli.DataFlowGraph.{
  NodeInfo, Collected, add_to, consume_all, produce_all, note_guard, note_branch, note_processor,
  collect, leg_of, nothing_collected, traverse,
}
use tramli.DataFlowGraph.Build.{map-Member}

abbrev pub nodes_of : String → Dict (List NodeInfo) → List NodeInfo
nodes_of k m = get_or [] (lookup k m)

-- Some node of the key.
abbrev pub Held : String → Dict (List NodeInfo) → Type 0
Held k m = (info : NodeInfo) × Member info (nodes_of k m)

nodes_of-add_to :
    (k key : String) (info : NodeInfo) (m : Dict (List NodeInfo))
    → nodes_of k (add_to key info m)
      ≡ (if key == k then nodes_of k m ++ info ∷ [] else nodes_of k m)
unfolding add_to
nodes_of-add_to k key info m = elim (Bool-cases (key == k)) [
  | inl e ↦
      ap (get_or []) (lookup-insert key k (nodes_of key m ++ info ∷ []) m)
      ∙ rw e (ap (λ z. nodes_of z m ++ info ∷ []) ((eq_iff key k).0 e))
  | inr e ↦ ap (get_or []) (lookup-insert key k (nodes_of key m ++ info ∷ []) m) ∙ rw e refl
]

pub Held-add_to :
    (k key : String) (info : NodeInfo) (m : Dict (List NodeInfo))
    → Held k (add_to key info m) ↔ ((key ≡ k) ⊎ Held k m)
Held-add_to k key info m = (split, joined)
  where
    nodes : List NodeInfo
    nodes = if key == k then nodes_of k m ++ info ∷ [] else nodes_of k m

    split : Held k (add_to key info m) → (key ≡ k) ⊎ Held k m
    split (i, n) =
        let among : Member i nodes = subst (Member i) (nodes_of-add_to k key info m) n in
        elim (Bool-cases (key == k)) [
          | inl e ↦ inl ((eq_iff key k).0 e)
          | inr e ↦ inr (i, rw e at among)
        ]

    joined : (key ≡ k) ⊎ Held k m → Held k (add_to key info m)
    joined h = elim (Bool-cases (key == k)) [
      | inl e ↦ (
        info,
        subst (Member info) (sym (nodes_of-add_to k key info m))
            (rw e (Member-append_right (nodes_of k m) here)),
      )
      | inr e ↦ elim h [
        | inl q ↦ absurd (same_differs (sym ((eq_iff key k).1 q) ∙ e))
        | inr (i, n) ↦ (i, subst (Member i) (sym (nodes_of-add_to k key info m)) (rw e n))
      ]
    ]
      where
        same_differs : ¬ true ≡ false
        same_differs p = cc

-- The set holds the keys that have a node, and those of `Base`.
abbrev pub Tally : (String → Type 0) → List String → Dict (List NodeInfo) → Type 0
Tally Base s m = (k : String) → Member k s ↔ (Base k ⊎ Held k m)

Tally-add :
    (Base : String → Type 0) (s : List String) (m : Dict (List NodeInfo)) (key : String)
    (info : NodeInfo)
    → Tally Base s m
    → Tally Base (add key s) (add_to key info m)
Tally-add Base s m key info h k = (
  λ n. elim (Member-add s n) [
    | inl q ↦ inr ((Held-add_to k key info m).1 (inl q))
    | inr o ↦ elim ((h k).0 o) [
      | inl b ↦ inl b
      | inr held ↦ inr ((Held-add_to k key info m).1 (inr held))
    ]
  ],
  λ x. elim x [
    | inl b ↦ add-Member_old key s ((h k).1 (inl b))
    | inr held ↦ elim ((Held-add_to k key info m).0 held) [
      | inl q ↦ subst (λ z. Member z (add key s)) q (add-Member key s)
      | inr old ↦ add-Member_old key s ((h k).1 (inr old))
    ]
  ],
)

module _ (initially : List String) where
  -- The sets agree with the nodes; what is there from the start counts as produced.
  abbrev pub Agrees : Collected → Type 0
  Agrees c =
      Tally (λ k. ⊥) c.all_consumed c.consumers
      × Tally (λ k. Member k initially) c.all_produced c.producers

  consume_all-Agrees :
      (info : NodeInfo) (reqs : List String) (c : Collected)
      → Agrees c
      → Agrees (consume_all info reqs c)
  unfolding consume_all
  consume_all-Agrees info [] c h = h
  consume_all-Agrees info (req ∷ reqs) c (consumed, produced) =
      consume_all-Agrees info reqs
        (record c {
          consumers = add_to req info c.consumers;
          all_consumed = add req c.all_consumed;
        })
        (Tally-add (λ k. ⊥) c.all_consumed c.consumers req info consumed, produced)

  produce_all-Agrees :
      (info : NodeInfo) (prods : List String) (c : Collected)
      → Agrees c
      → Agrees (produce_all info prods c)
  unfolding produce_all
  produce_all-Agrees info [] c h = h
  produce_all-Agrees info (prod ∷ prods) c (consumed, produced) =
      produce_all-Agrees info prods
        (record c {
          producers = add_to prod info c.producers;
          all_produced = add prod c.all_produced;
        })
        (
          consumed,
          Tally-add (λ k. Member k initially) c.all_produced c.producers prod info produced,
        )

  nothing-Agrees : Agrees (nothing_collected initially)
  unfolding lookup
  nothing-Agrees = (
    λ k. (
      λ n. absurd (Member-nil n),
      λ x. elim x [ inl b ↦ absurd b | inr (i, n) ↦ absurd (Member-nil n) ],
    ),
    λ k. (
      λ n. elim (Member-add_all initially [] n) [ inl l ↦ inl l | inr o ↦ absurd (Member-nil o) ],
      λ x. elim x [ inl l ↦ add_all-Member [] l | inr (i, n) ↦ absurd (Member-nil n) ],
    ),
  )

  module _ {D : Type 0} where
    collect-Agrees : (t : Transition D) (c : Collected) → Agrees c → Agrees (collect t c)
    unfolding collect note_guard note_branch note_processor
    collect-Agrees t c h =
        by_processor t.processor (note_branch t t.branch (note_guard t t.guard c))
          (by_branch t.branch (note_guard t t.guard c) (by_guard t.guard c h))
      where
        by_guard :
            (o : Option TransitionGuard) (c : Collected) → Agrees c → Agrees (note_guard t o c)
        by_guard none c h = h
        by_guard (some g) c h =
            produce_all-Agrees _ g.produces _ (consume_all-Agrees _ g.requires c h)

        by_branch :
            (o : Option BranchProcessor) (c : Collected) → Agrees c → Agrees (note_branch t o c)
        by_branch none c h = h
        by_branch (some b) c h = consume_all-Agrees _ b.requires c h

        by_processor :
            (o : Option StateProcessor) (c : Collected) → Agrees c → Agrees (note_processor t o c)
        by_processor none c h = h
        by_processor (some p) c h =
            produce_all-Agrees _ p.produces _ (consume_all-Agrees _ p.requires c h)

    pub traverse-Agrees :
        (d : FlowDefinition D) (provided : List String) (root : String) (s : Seen) (c : Collected)
        → traverse d initially provided root ≡ some (s, c)
        → Agrees c
    unfolding traverse leg_of
    traverse-Agrees d provided root s c e =
        walk-keeps Agrees (λ s. map (leg_of provided) (transitions_from s d)) leg-keeps _ root
          (add_all initially []) [] (nothing_collected initially) s c nothing-Agrees e
      where
        leg-keeps :
            (s : String) (l : Leg Collected) (base : List String) (acc : Collected)
            → Member l (map (leg_of provided) (transitions_from s d))
            → Agrees acc
            → Agrees (l.flow base acc).1
        leg-keeps s l base acc m h =
            let (t, _, q) = map-Member (leg_of provided) (transitions_from s d) m in
            subst (λ z. Agrees (z.flow base acc).1) q (collect-Agrees t acc h)
