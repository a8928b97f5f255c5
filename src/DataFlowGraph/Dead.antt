-- ===== src/DataFlowGraph/Dead.antt =====
-- The dead data of a graph that `build` gives.
pub mod Tally
use tramli.Prelude.{
  String, ◌==◌, eq_iff, ◌≡◌, refl, sym, ap, ◌∙◌, subst, ◌↔◌, ◌⊎◌, inl, inr, Bool, true, false,
  if◌then◌else◌, not, Option, none, some, get_or, List, [], ◌∷◌, ◌++◌, map, filter, lookup, insert,
  lookup-insert, Dict, add, add_all, delete, truthy, arith, Bool-cases, Option-cases, Member, here,
  there, Member-cons, Member-nil, Member-filter, filter-Member, List-cases, Member-append_right,
}
use tramli.Types.{Transition, TransitionGuard, BranchProcessor, StateProcessor}
use tramli.FlowDefinition.{FlowDefinition, transitions_from}
use tramli.Pipeline.Available.{
  Member-add, add-Member, add-Member_old, Member-add_all, add_all-Member,
}
use tramli.Availability.{Seen, Leg}
use tramli.Availability.Keeps.{walk-keeps}
use tramli.DataFlowGraph.{
  NodeKind, NodeInfo, Collected, DataFlowGraph, add_to, consume_all, produce_all, note_guard,
  note_branch, note_processor, collect, leg_of, mark_initial, nothing_collected, traverse, finish,
  graph_from, build, met_states, known_keys,
}
use tramli.DataFlowGraph.Build.{map-Member}
use tramli.DataFlowGraph.Queries.{producers_of, consumers_of, delete_all, dead_data}
use tramli.DataFlowGraph.Dead.Tally.{nodes_of, Held, Held-add_to, Agrees, traverse-Agrees}

-- One more key is marked.
marked-Held :
    (k j : String) (ks : List String) (info : NodeInfo) (m : Dict (List NodeInfo)) {H : Type 0}
    → H ↔ (Member k ks ⊎ Held k (add_to j info m))
    → H ↔ (Member k (j ∷ ks) ⊎ Held k m)
marked-Held k j ks info m later = (
  λ h. elim (later.0 h) [
    | inl n ↦ inl (there n)
    | inr held ↦ elim ((Held-add_to k j info m).0 held) [
      | inl q ↦ inl (subst (λ z. Member z (j ∷ ks)) q here)
      | inr old ↦ inr old
    ]
  ],
  λ x. later.1 (elim x [
    | inl n ↦ elim (Member-cons n) [
      | inl q ↦ inr ((Held-add_to k j info m).1 (inl q))
      | inr o ↦ inl o
    ]
    | inr old ↦ inr ((Held-add_to k j info m).1 (inr old))
  ]),
)

mark_initial-Held :
    (root : String) (ks : List String) (c : Collected) (k : String)
    → Held k (mark_initial root ks c).producers ↔ (Member k ks ⊎ Held k c.producers)
unfolding mark_initial
mark_initial-Held root [] c k =
    (λ h. inr h, λ x. elim x [ inl n ↦ absurd (Member-nil n) | inr h ↦ h ])
mark_initial-Held root (j ∷ ks) c k =
    marked-Held k j ks _ c.producers (mark_initial-Held root ks _ k)

-- Marking changes the producers only.
mark_initial-others :
    (root : String) (ks : List String) (c : Collected)
    → ((mark_initial root ks c).all_consumed ≡ c.all_consumed)
      × ((mark_initial root ks c).all_produced ≡ c.all_produced)
      × ((mark_initial root ks c).consumers ≡ c.consumers)
unfolding mark_initial
mark_initial-others root [] c = (refl, refl, refl)
mark_initial-others root (j ∷ ks) c = mark_initial-others root ks (record c {
  producers =
      add_to j
        (record { name = "initial"; from_state = root; to_state = root; kind = NodeKind.initial })
        c.producers;
})

delete_all-Member :
    (ks s : List String) (k : String) → Member k (delete_all ks s) ↔ (Member k s × ¬ Member k ks)
unfolding delete_all delete
delete_all-Member [] s k = (λ m. (m, Member-nil), λ (m, n). m)
delete_all-Member (j ∷ ks) s k = (
  λ m.
      let (n, out) = (delete_all-Member ks (delete j s) k).0 m in
      let (old, other) = Member-filter (λ i. not (i == j)) s n in
      (
        old,
        λ o. elim (Member-cons o) [
          | inl q ↦ differs (not (k == j)) other (rw ((eq_iff k j).1 (sym q)) refl)
          | inr p ↦ out p
        ],
      ),
  λ (m, out). (delete_all-Member ks (delete j s) k).1 (
    filter-Member (λ i. not (i == j)) s m
        (kept (k == j) refl (λ q. out (subst (λ z. Member z (j ∷ ks)) (sym q) here))),
    λ n. out (there n),
  ),
)
  where
    differs : (b : Bool) → b ≡ true → ¬ b ≡ false
    differs b p q = cc

    kept : (b : Bool) → k == j ≡ b → ¬ k ≡ j → not b ≡ true
    kept true e h = absurd (h ((eq_iff k j).0 e))
    kept false e h = refl

Held-nodes : (k : String) (m : Dict (List NodeInfo)) → Held k m ↔ (¬ nodes_of k m ≡ [])
Held-nodes k m = (
  λ (i, n) q. Member-nil (subst (Member i) q n),
  λ h. elim (List-cases (nodes_of k m)) [
    | inl q ↦ absurd (h q)
    | inr (i, rest, q) ↦ (i, subst (Member i) (sym q) here)
  ],
)

module _ (initially : List String) (root : String) (c : Collected)
    (agrees : Agrees initially c) where
  abbrev marked : Collected
  marked = mark_initial root initially c

  produced-Held : (k : String) → Member k marked.all_produced ↔ Held k marked.producers
  produced-Held k = (
    λ m.
        (mark_initial-Held root initially c k).1
          ((agrees.1 k).0 (subst (Member k) (mark_initial-others root initially c).1 m)),
    λ h.
        subst (Member k) (sym (mark_initial-others root initially c).1)
          ((agrees.1 k).1 ((mark_initial-Held root initially c k).0 h)),
  )

  consumed-Held : (k : String) → Member k marked.all_consumed ↔ Held k marked.consumers
  consumed-Held k = (
    λ m. elim ((agrees.0 k).0 (subst (Member k) (mark_initial-others root initially c).0 m)) [
      | inl b ↦ absurd b
      | inr h ↦ subst (Held k) (sym (mark_initial-others root initially c).2) h
    ],
    λ h.
        subst (Member k) (sym (mark_initial-others root initially c).0)
          ((agrees.0 k).1 (inr (subst (Held k) (mark_initial-others root initially c).2 h))),
  )

  marked-dead :
      (k : String)
      → Member k (delete_all marked.all_consumed marked.all_produced)
        ↔ (¬ nodes_of k marked.producers ≡ [] × (nodes_of k marked.consumers ≡ []))
  marked-dead k = (
    λ m.
        let (n, out) = (delete_all-Member marked.all_consumed marked.all_produced k).0 m in
        (
          (Held-nodes k marked.producers).0 ((produced-Held k).0 n),
          elim (List-cases (nodes_of k marked.consumers)) [
            | inl q ↦ q
            | inr (i, rest, q) ↦
                absurd (out ((consumed-Held k).1 (i, subst (Member i) (sym q) here)))
          ],
        ),
    λ (made, unused). (delete_all-Member marked.all_consumed marked.all_produced k).1 (
      (produced-Held k).1 ((Held-nodes k marked.producers).1 made),
      λ n. (Held-nodes k marked.consumers).0 ((consumed-Held k).0 n) unused,
    ),
  )

-- In the graph of a definition with an initial state, the dead data are exactly the keys that have a
-- producer and no consumer, what is available initially counting as produced.
pub build-dead_data :
    {D : Type 0} (d : FlowDefinition D) (initially provided : List String) (root : String)
    (g : DataFlowGraph) (k : String)
    → truthy d.initial_state ≡ some root
    → build d initially provided ≡ some g
    → Member k (dead_data g) ↔ (¬ producers_of k g ≡ [] × (consumers_of k g ≡ []))
unfolding build graph_from finish dead_data producers_of consumers_of
build-dead_data d initially provided root g k starts e =
    finished (traverse d initially provided root) refl
      (sym (ap (graph_from d initially provided) starts) ∙ e)
  where
    Exact : DataFlowGraph → Type 0
    Exact h = Member k (dead_data h) ↔ (¬ producers_of k h ≡ [] × (consumers_of k h ≡ []))

    finished :
        (o : Option (Seen × Collected))
        → traverse d initially provided root ≡ o
        → finish d initially provided root o ≡ some g
        → Exact g
    finished none p q = cc
    finished (some (s, c)) p q =
        subst Exact (some-injective q)
          (marked-dead initially root c (traverse-Agrees initially d provided root s c p) k)
      where
        some-injective : {h : DataFlowGraph} → some h ≡ some g → h ≡ g
        some-injective r = cc
