-- ===== src/Tests/Runs.antt =====
-- The order flow from start to end.
use tramli.Prelude.{String, ◌≡◌, refl, Option, none, some}
use tramli.FlowInstance.{FlowInstance}
use tramli.Exec.{Outcome, done, raised}
use tramli.Engine.Api.{World, start_flow, resume_and_execute}
use tramli.Samples.{engine, order, world, created_flow, started_world, address, payment}
use tramli.Tests.Open.{open_engine}

abbrev state_of : Outcome (World ⊥ ⊥) (FlowInstance ⊥ ⊥) → Option (String × Option String)
state_of (done f w) = some (f.current_state, f.exit_state)
state_of (raised x w) = none

started : start_flow engine 0 "f1" order "s1" address world ≡ done created_flow started_world
unfolding open_engine
started = refl

paid :
    state_of (resume_and_execute engine 0 "f1" order (some payment) started_world)
    ≡ some ("shipped", some "shipped")
unfolding open_engine
paid = refl

unpaid :
    state_of (resume_and_execute engine 0 "f1" order none started_world) ≡ some ("created", none)
unfolding open_engine
unpaid = refl
