-- ===== src/Tests/PluginExamples.antt =====
-- Instances of the theorems on plugins and on the context.
use tramli.Prelude.{
  false, List, String, ◌≡◌, refl, subst, ◌↔◌, ◌⊎◌, inl, inr, none, some, [], ◌∷◌, lookup, keys,
  Member, Member-cons, Member-nil, arith, eq_iff,
}
use tramli.Context.{Context, primitive, alias_of, key_of_alias, to_aliased_data, from_aliased_data}
use tramli.Context.Aliases.{Paired, aliased-roundtrip}
use tramli.FlowInstance.{complete}
use tramli.DataFlowGraph.{DataFlowGraph}
use tramli.DataFlowGraph.Queries.{available_at}
use tramli.Plugins.Resume.{RichResumeStatus, rich_resume}
use tramli.Plugins.Resume.Expiry.{Unknown, rich_resume-expires}
use tramli.Plugins.Idempotency.{Desk}
use tramli.Plugins.Idempotency.Once.{Call, Suppressed, run_calls, resume-once}
use tramli.Plugins.Hierarchy.{
  StateFields, HierarchicalStateSpec, spec, Children, end, ◌⨾◌, path_to, find_among, find_path,
  shared, last_shared, drop_shared, crashed, compile_transition,
}
use tramli.Plugins.Hierarchy.Paths.{Descends, path_to-Descends}
use tramli.Plugins.Hierarchy.Crashes.{RootEntry, compile_transition-crashes}
use tramli.Plugins.Subflow.{validate, validate_lem}
use tramli.Samples.{stored, engine, order, payment, started_world}
use tramli.Tests.EngineExamples.{late_world}
use tramli.Tests.Open.{open_engine}

rich_resume-expires_example :
    ((rich_resume engine 0 "f1" order payment "created" late_world).1 ≡ record {
      status = RichResumeStatus.already_complete;
      flow = some (complete "EXPIRED" stored.flow);
      error = none;
    })
    × Unknown engine 0 "f1" (rich_resume engine 0 "f1" order payment "created" late_world).0
unfolding open_engine
rich_resume-expires_example =
    rich_resume-expires engine 0 "f1" order payment late_world stored refl refl (ground arith)

abbrev paying : Call engine 0
paying = record {
  id = "f1";
  definition = order;
  envelope = record { command_id = "c1"; external_data = payment };
  before = "created";
}

abbrev desk : Desk ⊥ ⊥
desk = record { seen = []; world = started_world }

-- The payment is sent again, after another command.
resume-once_example : Suppressed engine 0 paying (
    run_calls engine 0
      (paying ∷ record paying { envelope = record { command_id = "c2"; external_data = [] } } ∷ [])
      desk)
resume-once_example =
    resume-once engine 0 paying paying
      (record paying { envelope = record { command_id = "c2"; external_data = [] } } ∷ []) desk refl
      refl

abbrev graph_at : String → DataFlowGraph
graph_at state = record {
  available_at_state = (state, "address" ∷ []) ∷ [];
  nodes = record { producers = []; consumers = []; all_produced = []; all_consumed = [] };
}

validate_lem_example :
    (validate (some (graph_at "paid")) "paid" order (some (graph_at "created")) ("payment" ∷ [])
      ≡ none)
    ↔ ((k : String)
        → Member k (available_at "created" (graph_at "created"))
        → Member k ("payment" ∷ []) ⊎ Member k (available_at "paid" (graph_at "paid")))
validate_lem_example =
    validate_lem (graph_at "paid") (graph_at "created") "paid" "created" order ("payment" ∷ []) refl

-- The address is written as "addr".
abbrev aliased : Context
aliased = record {
  flow_id = "f1";
  created_at = 0;
  attributes = ("address", primitive "Main St") ∷ [];
  alias_to_key = ("addr", "address") ∷ [];
  key_to_alias = ("address", "addr") ∷ [];
}

abbrev empty_copy : Context
empty_copy = record aliased { attributes = [] }

swapped : (j k a b : String) → lookup j ((a, b) ∷ []) ≡ some k → lookup k ((b, a) ∷ []) ≡ some j
unfolding lookup
swapped j k a b h = ground (arith, eq_iff a j, eq_iff b k)

aliased-Paired : Paired aliased
unfolding alias_of key_of_alias keys lookup
aliased-Paired = record {
  one_key = λ k a h. swapped k a "address" "addr" h;
  one_alias = λ k a h. swapped a k "addr" "address" h;
  apart = λ k m h. elim (Member-cons m) [
    | inl q ↦ subst (λ z. lookup z aliased.alias_to_key ≡ none) q refl
    | inr n ↦ absurd (Member-nil n)
  ];
}

aliased-roundtrip_example :
    lookup "address" (from_aliased_data (to_aliased_data aliased) empty_copy).attributes
    ≡ some (primitive "Main St")
unfolding alias_of lookup
aliased-roundtrip_example =
    aliased-roundtrip aliased empty_copy "address" "addr" (primitive "Main St") (refl, tt)
      aliased-Paired refl refl refl

-- Two roots, the second with entry data, and a state below it.
abbrev plain_state : String → List String → StateFields
plain_state name entry = record {
  name = name;
  initial = false;
  terminal = false;
  entry_produces = entry;
  exit_produces = [];
}

abbrev two_roots : Children
two_roots =
    spec (plain_state "Idle" []) end
    ⨾ spec (plain_state "Open" ("badge" ∷ [])) (spec (plain_state "Desk" []) end ⨾ end)
    ⨾ end

path_to-Descends_example :
    Descends two_roots "Desk" (path_to two_roots "Desk")
    ⊎ ((path_to two_roots "Desk" ≡ [])
        × ((path : List HierarchicalStateSpec) → ¬ Descends two_roots "Desk" path))
path_to-Descends_example = path_to-Descends two_roots "Desk"

compile_transition-crashes_example :
    (compile_transition two_roots "Idle" "Desk" ≡ crashed)
    ↔ RootEntry (path_to two_roots "Idle") (path_to two_roots "Desk")
compile_transition-crashes_example = compile_transition-crashes two_roots "Idle" "Desk"

idle_to_desk : compile_transition two_roots "Idle" "Desk" ≡ crashed
unfolding compile_transition path_to find_among find_path shared last_shared drop_shared
idle_to_desk = refl
