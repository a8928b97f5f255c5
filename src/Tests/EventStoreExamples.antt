-- ===== src/Tests/EventStoreExamples.antt =====
-- Instances of the theorems on the event log: two flows, a compensation, data that cannot be printed,
-- and a wrapped store that throws.
use tramli.Prelude.{
  String, ℕ, ◌+◌, ◌≤◌, ◌≡◌, refl, true, false, if◌then◌else◌, ltb, none, some, List, [], ◌∷◌,
  length, Member,
}
use tramli.FlowError.{error, type_error}
use tramli.Types.{Reply, returns, throws}
use tramli.EventStore.{
  transition, Entry, append_compensation, record_transition, record_after, record_printed, bump,
  version_of, event_log_store, push, events_for_flow, state_at_version,
}
use tramli.EventStore.History.{
  count_from, numbered, versions, LogOp, recording, compensating, run_ops, marks,
}
use tramli.EventStore.Numbering.{events-numbered}
use tramli.EventStore.Replay.{logged, replay-records}

abbrev moved_to : String → Entry
moved_to state = record {
  type = transition;
  from = none;
  to = state;
  trigger = "auto";
  timestamp = 0;
  state_snapshot = "{}";
}

-- The wrapped store counts the transitions, and throws at the fourth.
abbrev wrapped : ℕ
wrapped = 0

abbrev counted : ℕ → ℕ × Reply (Unit {0})
counted n = (n + 1, if ltb n 3 then returns tt else throws (error (type_error "full")))

abbrev step_to : String → String → Reply String → LogOp ℕ
step_to id state printed = recording counted id none state "auto" 0 printed

-- A BigInt in the data of the first flow when it is first moved on.
abbrev history : List (LogOp ℕ)
history =
    step_to "f1" "paid" (throws (error (type_error "Do not know how to serialize a BigInt")))
    ∷ step_to "f2" "paid" (returns "{}")
    ∷ compensating "f1" "refund" "{}" 0
    ∷ step_to "f1" "failed" (returns "{}")
    ∷ step_to "f1" "shipped" (returns "{}")
    ∷ []

marked : marks "f1" history (event_log_store wrapped) ≡ false ∷ true ∷ true ∷ []
unfolding event_log_store record_transition record_after record_printed append_compensation push
    bump version_of
marked = refl

events-numbered_example :
    (version_of "f1" (run_ops history (event_log_store wrapped))
      ≡ length (marks "f1" history (event_log_store wrapped)))
    × (versions (events_for_flow "f1" (run_ops history (event_log_store wrapped)))
        ≡ numbered 0 (marks "f1" history (event_log_store wrapped)))
    × (¬ Member false (marks "f1" history (event_log_store wrapped))
        → versions (events_for_flow "f1" (run_ops history (event_log_store wrapped)))
          ≡ count_from 0 (version_of "f1" (run_ops history (event_log_store wrapped))))
events-numbered_example = events-numbered wrapped history "f1"

replay-records_example :
    (version_of "f1" (logged wrapped history) + 1 ≤ 4
      → state_at_version (push "f1" (moved_to "shipped") (logged wrapped history)).event_log "f1" 4
        ≡ some "shipped")
    × (4 ≤ version_of "f1" (logged wrapped history)
        → state_at_version
            (push "f1" (moved_to "shipped") (logged wrapped history)).event_log
            "f1"
            4
          ≡ state_at_version (logged wrapped history).event_log "f1" 4)
replay-records_example = replay-records wrapped history "f1" (moved_to "shipped") 4 refl
