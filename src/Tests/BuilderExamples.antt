-- ===== src/Tests/BuilderExamples.antt =====
-- Instances of the theorems on definitions that are built.
use tramli.Prelude.{
  ◌≡◌, refl, ◌↔◌, true, false, some, [], ◌∷◌, contains, add, keys, here, there, Member-nil,
}
use tramli.Types.{Transition, is_external}
use tramli.FlowDefinition.{FlowDefinition, externals_from, all_states}
use tramli.Engine.Select.{trigger_of, is_explicit, trigger_given, selected, select_external}
use tramli.Builder.Distinct.{
  triggers_in, duplicate_errors, distinct_errors_at, distinct_errors,
  check_external_requires_distinct,
}
use tramli.Builder.Distinct.Routing.{OnlyTrigger, check-routes}
use tramli.Builder.Reachability.{check_reachability}
use tramli.Builder.Reachability.Exact.{AllReachable, check_reachability_lem}
use tramli.Prelude.{truthy}
use tramli.Builder.Terminal.{check_path_to_terminal}
use tramli.Builder.Terminal.Exact.{PathExact, check_path_to_terminal_lem}
use tramli.Builder.Dag.{check_dag}
use tramli.Builder.Dag.Exact.{Acyclic, check_dag_lem}
use tramli.Samples.{order, pay, payment_guard, ship_order}

check_reachability_lem_example : (check_reachability order ≡ []) ↔ AllReachable order
check_reachability_lem_example = check_reachability_lem order

-- An order that can be paid or cancelled, each by its own event.
abbrev paid_on : Transition ⊥
paid_on = record pay { guard = some (record payment_guard { external_trigger = some "payment" }) }

abbrev cancelled_on : Transition ⊥
cancelled_on = record pay {
  to = "failed";
  guard = some (record payment_guard { name = "Cancel"; external_trigger = some "cancel" });
}

abbrev payable : FlowDefinition ⊥
payable = record order { transitions = paid_on ∷ cancelled_on ∷ ship_order ∷ [] }

only-payment : OnlyTrigger "payment" ("payment" ∷ "note" ∷ []) (paid_on ∷ cancelled_on ∷ [])
unfolding trigger_given trigger_of contains
only-payment u here h = refl
only-payment u (there here) h = absurd (false_is_not_true h)
  where
    false_is_not_true : ¬ false ≡ true
    false_is_not_true q = cc
only-payment u (there (there m)) h = absurd (Member-nil m)

check-routes_example :
    select_external (externals_from "created" payable) ("payment" ∷ "note" ∷ []) "created"
    ≡ selected paid_on
unfolding externals_from is_external trigger_of check_external_requires_distinct distinct_errors
    distinct_errors_at is_explicit triggers_in duplicate_errors contains add all_states keys
check-routes_example =
    check-routes payable "created" paid_on ("payment" ∷ "note" ∷ []) "payment" refl here here refl
      here only-payment

check_path_to_terminal_lem_example : PathExact order "created" (check_path_to_terminal order)
unfolding truthy
check_path_to_terminal_lem_example = check_path_to_terminal_lem order "created" refl

check_dag_lem_example : (check_dag order ≡ []) ↔ Acyclic order
check_dag_lem_example = check_dag_lem order
