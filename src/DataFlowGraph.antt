-- ===== src/DataFlowGraph.antt =====
-- The graph of data and of the code that produces and consumes them
-- (lang/ts/src/data-flow-graph.ts): its data and `build`.
pub mod Queries
pub mod Hints
pub mod Migration
pub mod Versions
pub mod Build
pub mod Compatible
pub mod Dead
use tramli.Prelude.{
  String, ℕ, suc, Bool, true, false, if◌then◌else◌, Option, none, some, get_or, List, [], ◌∷◌, ◌++◌,
  map, length, truthy, add, add_all, Dict, lookup, insert,
}
use tramli.Types.{Transition, TransitionGuard, BranchProcessor, StateProcessor, is_external}
use tramli.FlowDefinition.{FlowDefinition, transitions_from}
use tramli.Availability.{Seen, Leg, walk, budget}

pub data NodeKind : Type 0 where
  processor guard branch initial : NodeKind

pub record NodeInfo : Type 0 where
  pub name : String
  pub from_state : String
  pub to_state : String
  pub kind : NodeKind

-- What `traverse` collects beside the available data.
pub record Collected : Type 0 where
  pub producers : Dict (List NodeInfo)
  pub consumers : Dict (List NodeInfo)
  pub all_produced : List String
  pub all_consumed : List String

pub record DataFlowGraph : Type 0 where
  pub available_at_state : Seen
  pub nodes : Collected

unfoldable pub add_to : String → NodeInfo → Dict (List NodeInfo) → Dict (List NodeInfo)
add_to key info m = insert key (get_or [] (lookup key m) ++ info ∷ []) m

unfoldable pub consume_all : NodeInfo → List String → Collected → Collected
consume_all info [] c = c
consume_all info (req ∷ reqs) c =
    consume_all info reqs
      (record c { consumers = add_to req info c.consumers; all_consumed = add req c.all_consumed })

unfoldable pub produce_all : NodeInfo → List String → Collected → Collected
produce_all info [] c = c
produce_all info (prod ∷ prods) c =
    produce_all info prods (record c {
      producers = add_to prod info c.producers;
      all_produced = add prod c.all_produced;
    })

module _ {D : Type 0} where
  abbrev pub node_of : String → NodeKind → Transition D → NodeInfo
  node_of name kind t = record { name = name; from_state = t.from; to_state = t.to; kind = kind }

  note_guard : Transition D → Option TransitionGuard → Collected → Collected
  note_guard t none c = c
  note_guard t (some g) c =
      let info = node_of g.name NodeKind.guard t in
      produce_all info g.produces (consume_all info g.requires c)

  note_branch : Transition D → Option BranchProcessor → Collected → Collected
  note_branch t none c = c
  note_branch t (some b) c = consume_all (node_of b.name NodeKind.branch t) b.requires c

  note_processor : Transition D → Option StateProcessor → Collected → Collected
  note_processor t none c = c
  note_processor t (some p) c =
      let info = node_of p.name NodeKind.processor t in
      produce_all info p.produces (consume_all info p.requires c)

  unfoldable pub collect : Transition D → Collected → Collected
  unfolding note_guard note_branch note_processor
  collect t c = note_processor t t.processor (note_branch t t.branch (note_guard t t.guard c))

  unfoldable pub guard_produces : Transition D → List String
  guard_produces t = elim t.guard [ none ↦ [] | some g ↦ g.produces ]

  unfoldable pub processor_produces : Transition D → List String
  processor_produces t = elim t.processor [ none ↦ [] | some p ↦ p.produces ]

  -- The data after the transition.
  unfoldable pub available_through : List String → Transition D → List String → List String
  unfolding guard_produces processor_produces
  available_through provided t base =
      add_all (processor_produces t)
        (add_all (guard_produces t) (if is_external t.type then add_all provided base else base))

  unfoldable pub leg_of : List String → Transition D → Leg Collected
  unfolding available_through collect
  leg_of provided t = record {
    target = t.to;
    flow = λ base c. (available_through provided t base, collect t c);
  }

  -- All states that a walk can meet, and all keys.
  unfoldable pub met_states : String → FlowDefinition D → List String
  met_states root d = root ∷ map (λ t. t.to) d.transitions

  unfoldable pub produced_in : List (Transition D) → List String
  unfolding guard_produces processor_produces
  produced_in [] = []
  produced_in (t ∷ ts) = guard_produces t ++ (processor_produces t ++ produced_in ts)

  unfoldable pub known_keys : List String → List String → FlowDefinition D → List String
  known_keys initially provided d = initially ++ (provided ++ produced_in d.transitions)

-- `initial` as the producer of what is available initially.
unfoldable pub mark_initial : String → List String → Collected → Collected
mark_initial root [] c = c
mark_initial root (key ∷ keys) c = mark_initial root keys (record c {
  producers =
      add_to key
        (record { name = "initial"; from_state = root; to_state = root; kind = NodeKind.initial })
        c.producers;
})

abbrev pub nothing_collected : List String → Collected
nothing_collected initially = record {
  producers = [];
  consumers = [];
  all_produced = add_all initially [];
  all_consumed = [];
}

module _ {D : Type 0} (d : FlowDefinition D) (initially provided : List String) where
  -- `traverse(def, def.initialState, …)`
  unfoldable pub traverse : String → Option (Seen × Collected)
  traverse root =
      walk (λ s. map (leg_of provided) (transitions_from s d))
        (suc (budget (met_states root d) (length (known_keys initially provided d)))) root
        (add_all initially []) ([], nothing_collected initially)

  finish : String → Option (Seen × Collected) → Option DataFlowGraph
  finish root none = none
  finish root (some (seen, c)) =
      some (record { available_at_state = seen; nodes = mark_initial root initially c })

  graph_from : Option String → Option DataFlowGraph
  unfolding finish
  graph_from none = some (record { available_at_state = []; nodes = nothing_collected initially })
  graph_from (some root) = finish root (traverse root)

  -- `none`: the walk did not end within its fuel.
  unfoldable pub build : Option DataFlowGraph
  unfolding graph_from
  build = graph_from (truthy d.initial_state)
