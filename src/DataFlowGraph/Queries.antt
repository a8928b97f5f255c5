-- ===== src/DataFlowGraph/Queries.antt =====
-- What the graph can be asked (lang/ts/src/data-flow-graph.ts), but for the texts that it prints. A set that is given
-- back is a list without repetition.
use tramli.Prelude.{
  String, ◌<>◌, ◌==◌, Bool, not, ◌&&◌, if◌then◌else◌, Option, none, some, get_or, List, [], ◌∷◌,
  map, filter, any, all, contains, add_all, delete, join, Dict, lookup,
}
use tramli.Context.{Context, has_key}
use tramli.DataFlowGraph.{NodeInfo, DataFlowGraph}

unfoldable pub available_at : String → DataFlowGraph → List String
available_at state g = get_or [] (lookup state g.available_at_state)

unfoldable pub producers_of : String → DataFlowGraph → List NodeInfo
producers_of key g = get_or [] (lookup key g.nodes.producers)

unfoldable pub consumers_of : String → DataFlowGraph → List NodeInfo
consumers_of key g = get_or [] (lookup key g.nodes.consumers)

-- `for (const k of ks) s.delete(k)`
unfoldable pub delete_all : List String → List String → List String
delete_all [] s = s
delete_all (k ∷ ks) s = delete_all ks (delete k s)

unfoldable pub dead_data : DataFlowGraph → List String
dead_data g = delete_all g.nodes.all_consumed g.nodes.all_produced

unfoldable pub all_types : DataFlowGraph → List String
all_types g = add_all g.nodes.all_consumed g.nodes.all_produced

pub record Lifetime : Type 0 where
  pub first_produced : String
  pub last_consumed : String

last_state : String → List NodeInfo → String
last_state default [] = default
last_state default (n ∷ ns) = last_state n.from_state ns

lifetime_of : List NodeInfo → List NodeInfo → Option Lifetime
unfolding last_state
lifetime_of [] cons = none
lifetime_of (p ∷ prods) cons =
    some (record { first_produced = p.to_state; last_consumed = last_state p.to_state cons })

unfoldable pub lifetime : String → DataFlowGraph → Option Lifetime
unfolding lifetime_of
lifetime key g = lifetime_of (producers_of key g) (consumers_of key g)

-- `b` requires no more than `a` and produces no less.
unfoldable pub is_compatible : List String → List String → List String → List String → Bool
is_compatible a_requires a_produces b_requires b_produces =
    all (λ r. contains r (add_all a_requires [])) (add_all b_requires [])
    && all (λ p. contains p (add_all b_produces [])) (add_all a_produces [])

unfoldable pub assert_data_flow : Context → String → DataFlowGraph → List String
assert_data_flow c state g = filter (λ type. not (has_key type c)) (available_at state g)

pub record Missing : Type 0 where
  pub type : String
  pub needed_by : List String
  pub producers : List (String × String)
  pub reason : String

reason_of : String → String → List NodeInfo → String
reason_of key state [] = "'" <> key <> "' is never produced by any processor or guard"
reason_of key state (p ∷ ps) =
    "'"
    <> key
    <> "' is produced by ["
    <> join ", " (map (λ q. q.name) (p ∷ ps))
    <> "] but not on a path reaching "
    <> state

explain_key : DataFlowGraph → String → String → Missing
unfolding reason_of
explain_key g state key = record {
  type = key;
  needed_by = map (λ n. n.name) (filter (λ n. n.from_state == state) (consumers_of key g));
  producers = map (λ p. (p.name, p.to_state)) (producers_of key g);
  reason = reason_of key state (producers_of key g);
}

needed_at : String → Dict (List NodeInfo) → List String
needed_at state [] = []
needed_at state ((type, nodes) ∷ rest) =
    let later = needed_at state rest in
    if any (λ n. n.from_state == state) nodes then type ∷ later else later

-- `key ? [key] : …`
keys_to_check : String → Option String → DataFlowGraph → List String
unfolding needed_at
keys_to_check state none g = needed_at state g.nodes.consumers
keys_to_check state (some key) g = if key == "" then needed_at state g.nodes.consumers else key ∷ []

pub record ExplainResult : Type 0 where
  pub state : String
  pub available : List String
  pub missing : List Missing

unfoldable pub explain : String → Option String → DataFlowGraph → ExplainResult
unfolding explain_key keys_to_check
explain state key g = record {
  state = state;
  available = available_at state g;
  missing =
      map (explain_key g state)
        (filter (λ k. not (contains k (available_at state g))) (keys_to_check state key g));
}

unfoldable pub impact_of : String → DataFlowGraph → List NodeInfo × List NodeInfo
impact_of key g = (producers_of key g, consumers_of key g)
