-- ===== src/Tests/PipelineExamples.antt =====
-- Instances of the theorems on pipelines: a step that needs an order and prices it, then one that
-- needs the price and bills it.
use tramli.Prelude.{
  contains, add, add_all, String, ℕ, ◌≡◌, refl, ◌⊎◌, inl, inr, ◌↔◌, Bool, true, false, List, [],
  ◌∷◌, Dict, Member, here, there, Member-cons, Member-nil, at_here, at_there, lookup, insert,
  insert_all, is_some, subst, arith, lookup-insert, lookup-insert_self,
}
use tramli.FlowError.{plain_error, error}
use tramli.Context
use tramli.Context.{Context, Value, primitive, put, has_key, put_all}
use tramli.Types.{returns, throws}
use tramli.Pipeline.{PipelineStep, Pipeline, PipelineBuilder, built, build, dead_data}
use tramli.Pipeline.Validation.{Provided, build_lem}
use tramli.DataFlowGraph.Queries.{is_compatible}
use tramli.DataFlowGraph.Compatible.{compatible-replaces}
use tramli.Pipeline.DataFlow.{ProducedIn, RequiredIn, dead_data_lem}
use tramli.Pipeline.Execution.{Progress, went_on, execute, as_step}
use tramli.Pipeline.Execution.Completion.{KeepsWord, names, execute-completes}
use tramli.Pipeline.Execution.Outcomes.{Ended, execute-Ended}
use tramli.Pipeline.Execution.Nesting.{Agrees, as_step-Agrees}

-- The world counts the calls.
abbrev writer : String → String → String → PipelineStep ℕ
writer name needs key = record {
  name = name;
  requires = needs ∷ [];
  produces = key ∷ [];
  process = λ calls c. (calls, put key (primitive "1") c, returns tt);
}

abbrev broken : PipelineStep ℕ
broken = record {
  name = "Broken";
  requires = [];
  produces = [];
  process = λ calls c. (calls, c, throws (error (plain_error "broken")));
}

abbrev billing : PipelineBuilder ℕ
billing = record {
  name = "billing";
  steps = writer "Price" "order" "price" ∷ writer "Bill" "price" "bill" ∷ [];
  initially_available = "order" ∷ [];
}

abbrev pipeline_of : List (PipelineStep ℕ) → Bool → Pipeline ℕ
pipeline_of steps strict = record {
  name = "billing";
  steps = steps;
  initially_available = "order" ∷ [];
  data_flow = record { steps = steps; initially_available = "order" ∷ [] };
  strict_mode = strict;
  transition_logger = true;
  state_logger = true;
  error_logger = true;
}

abbrev order_data : Dict Value
order_data = ("order", primitive "7") ∷ []

writer-KeepsWord : (name needs key : String) → KeepsWord (writer name needs key)
unfolding put has_key
writer-KeepsWord name needs key w c there_is = (_, _, refl, made, kept)
  where
    made : (k : String) → Member k (key ∷ []) → has_key k (put key (primitive "1") c) ≡ true
    made k m = elim (Member-cons m) [
      | inl q ↦
          subst (λ z. has_key z (put key (primitive "1") c) ≡ true) q
            (rw (lookup-insert_self key (primitive "1") c.attributes) refl)
      | inr n ↦ absurd (Member-nil n)
    ]

    kept : (k : String) → has_key k c ≡ true → has_key k (put key (primitive "1") c) ≡ true
    kept k h = rw (lookup-insert key k (primitive "1") c.attributes) (ground arith)

billing-Provided : Provided billing.steps billing.initially_available
billing-Provided [] s key at_here m = inl m
billing-Provided (x ∷ []) s key (at_there at_here) m = inr (_, here, m)
billing-Provided (x ∷ y ∷ before) s key (at_there (at_there at)) m = elim at [ ]

build_lem_example :
    ((p : Pipeline ℕ) × (build billing ≡ built p))
    ↔ Provided billing.steps billing.initially_available
build_lem_example = build_lem billing

dead_data_lem_example :
    Member {A = String} "bill"
      (dead_data (record { steps = billing.steps; initially_available = "order" ∷ [] }))
    ↔ ((Member {A = String} "bill" ("order" ∷ []) ⊎ ProducedIn "bill" billing.steps)
        × ¬ RequiredIn "bill" billing.steps)
dead_data_lem_example =
    dead_data_lem (record { steps = billing.steps; initially_available = "order" ∷ [] }) "bill"

billing-KeepsWord : (s : PipelineStep ℕ) → Member s billing.steps → KeepsWord s
billing-KeepsWord s here = writer-KeepsWord "Price" "order" "price"
billing-KeepsWord s (there here) = writer-KeepsWord "Bill" "price" "bill"
billing-KeepsWord s (there (there m)) = absurd (Member-nil m)

order-there :
    (k : String) → Member k ("order" ∷ []) → is_some (lookup k (insert_all order_data [])) ≡ true
unfolding lookup insert_all insert
order-there k here = refl
order-there k (there m) = absurd (Member-nil m)

execute-completes_example :
    (h : Progress ℕ) × (execute (pipeline_of billing.steps true) "f1" 0 order_data 0 ≡ went_on h)
    × (h.completed ≡ names billing.steps)
    × ((k : String)
        → is_some (lookup k (insert_all order_data [])) ≡ true
        → has_key k h.context ≡ true)
    × ((s : PipelineStep ℕ) (k : String)
        → Member s billing.steps
        → Member k s.produces
        → has_key k h.context ≡ true)
execute-completes_example =
    execute-completes (pipeline_of billing.steps true) "f1" 0 order_data 0 billing-Provided
      billing-KeepsWord order-there

execute-Ended_example :
    Ended [] (writer "Price" "order" "price" ∷ broken ∷ []) (
      execute (pipeline_of (writer "Price" "order" "price" ∷ broken ∷ []) true) "f1" 0 order_data 0)
execute-Ended_example =
    execute-Ended (pipeline_of (writer "Price" "order" "price" ∷ broken ∷ []) true) "f1" 0
      order_data 0

as_step-Agrees_example :
    Agrees
      (execute
        (pipeline_of (writer "Price" "order" "price" ∷ broken ∷ []) false)
        "f1"
        0
        order_data
        0)
      ((as_step (pipeline_of (writer "Price" "order" "price" ∷ broken ∷ []) false)).process 0
        (put_all order_data (Context.new "f1" 0 [])))
as_step-Agrees_example =
    as_step-Agrees (pipeline_of (writer "Price" "order" "price" ∷ broken ∷ []) false) "f1" 0
      order_data 0 refl

-- A step that prices without an order.
abbrev free_price : PipelineStep ℕ
free_price = record {
  name = "Free";
  requires = [];
  produces = "price" ∷ "note" ∷ [];
  process = λ calls c. (calls, c, returns tt);
}

abbrev cheaper : PipelineBuilder ℕ
cheaper = record billing { steps = free_price ∷ writer "Bill" "price" "bill" ∷ [] }

compatible-replaces_example : (q : Pipeline ℕ) × (build cheaper ≡ built q)
unfolding is_compatible contains add_all add
compatible-replaces_example =
    compatible-replaces (writer "Price" "order" "price") free_price billing
      (build_lem_example.1 billing-Provided).0 [] (writer "Bill" "price" "bill" ∷ []) refl
      (build_lem_example.1 billing-Provided).1 fits
  where
    fits : is_compatible ("order" ∷ []) ("price" ∷ []) [] ("price" ∷ "note" ∷ []) ≡ true
    fits = refl
