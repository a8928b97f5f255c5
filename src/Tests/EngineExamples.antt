-- ===== src/Tests/EngineExamples.antt =====
-- Instances of the engine's theorems on the order flow.
use tramli.Prelude.{◌≡◌, refl, Bool, false, some}
use tramli.FlowError.{plain_error}
use tramli.Exec.{done, final}
use tramli.FlowInstance.{FlowInstance}
use tramli.Engine.{Run}
use tramli.Engine.Errors.{handle_error}
use tramli.Engine.Errors.Outcomes.{Routed, error_target, handle_error_lem}
use tramli.Engine.Chain.{try_step}
use tramli.Engine.Chain.Rollback.{try_step-restores}
use tramli.Engine.Api.{start_flow, resume_and_execute}
use tramli.Engine.Api.Follows.{Walked, resume-Walked, start-Walked}
use tramli.Samples.{
  engine, order, ship_order, world, stored, started_world, paid_run, address, payment,
}
use tramli.Prelude.{[], ◌∷◌}
use tramli.Prelude.{true, any, Member, lookup, arith}
use tramli.Context.{put_all}
use tramli.FlowInstance.{complete}
use tramli.Engine.Api.{World}
use tramli.Engine.Api.Expiry.{Gone, resume-expires}
use tramli.Engine.External.{accepted_data}
use tramli.Engine.Select.{is_explicit}
use tramli.Engine.Select.Strict.{ByTrigger, ByRequires, select_external-Strict}
use tramli.Samples.{pay}
use tramli.Types.{rejected}
use tramli.Engine.External.{on_output}
use tramli.Engine.External.Rejection.{Rejected, on_output-Rejected}
use tramli.Samples.{payment_guard, created_flow}
use tramli.Tests.Open.{open_engine}

resume-Walked_example :
    Walked order "created" "f1" []
      (final (resume_and_execute engine 0 "f1" order (some payment) started_world))
unfolding open_engine
resume-Walked_example =
    resume-Walked engine 0 "f1" order (some payment) started_world stored refl refl

start-Walked_example :
    Walked order "created" "f1" [] (final (start_flow engine 0 "f1" order "s1" address world))
unfolding open_engine
start-Walked_example =
    start-Walked engine 0 "f1" order "s1" address world {initial = "created"} refl

-- The processor writes a label and then throws, since there is no address.
try_step-restores_example :
    (made : Bool) × (s : Run (FlowInstance ⊥ ⊥)) × (try_step engine ship_order
        (ship_order ∷ [])
        (paid_run [])
      ≡ done made s)
    × (made ≡ false → s.env.context.attributes ≡ [])
try_step-restores_example = try_step-restores engine ship_order (ship_order ∷ []) (paid_run []) tt

handle_error_lem_example :
    (s : Run (FlowInstance ⊥ ⊥)) × (handle_error engine "paid"
        (some (plain_error "no address"))
        (paid_run [])
      ≡ done tt s)
    × Routed (error_target "paid" (some (plain_error "no address")) order) (paid_run []) s
handle_error_lem_example =
    handle_error_lem engine "paid" (some (plain_error "no address")) (paid_run [])

-- At moment 5000 the order has expired.
abbrev pub late_world : World ⊥ ⊥
late_world = record started_world { moment = 5000 }

resume-expires_example :
    (v : World ⊥ ⊥) × (resume_and_execute engine 0 "f1" order (some payment) late_world
      ≡ done (complete "EXPIRED" stored.flow) v)
    × (lookup "f1" v.store.flows
        ≡ some (record {
          flow = complete "EXPIRED" stored.flow;
          context = put_all (accepted_data (some payment)) stored.context;
        }))
    × (v.store.transition_log ≡ [])
    × (v.moment ≡ 5001)
    × Gone engine 0 "f1" v
unfolding open_engine
resume-expires_example =
    resume-expires engine 0 "f1" order (some payment) late_world stored refl refl (ground arith)

select_external-Strict_example :
    Member pay (pay ∷ [])
    × (any is_explicit (pay ∷ []) ≡ true → ByTrigger (pay ∷ []) ("payment" ∷ []) pay)
    × (any is_explicit (pay ∷ []) ≡ false → ByRequires (pay ∷ []) ("payment" ∷ []) pay)
unfolding open_engine
select_external-Strict_example =
    select_external-Strict (pay ∷ []) ("payment" ∷ []) "created" pay refl

-- The third rejection of at most three.
abbrev rejected_twice : Run (FlowInstance ⊥ ⊥)
rejected_twice = record (paid_run []) { flow = record created_flow { guard_failure_count = 2 } }

on_output-Rejected_example :
    (s : Run (FlowInstance ⊥ ⊥)) × (on_output engine 3 payment_guard pay "created"
        (rejected "unpaid")
        rejected_twice
      ≡ done false s)
    × Rejected 3 "created" rejected_twice s
on_output-Rejected_example =
    on_output-Rejected engine 3 payment_guard pay "created" "unpaid" rejected_twice
