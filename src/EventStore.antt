-- ===== src/EventStore.antt =====
-- The append-only event log and its replay (lang/ts-plugins/src/eventstore). `S` is the state of the
-- store that is wrapped; what that store does in an operation, what the clock reads, and what
-- `JSON.stringify` and the resolver give or throw are arguments.
pub mod History
pub mod Numbered
pub mod Numbering
pub mod Replay
use tramli.Types.{Reply, returns, throws}
use tramli.Prelude.{
  String, ◌==◌, ℕ, ◌+◌, leb, Bool, true, false, ◌&&◌, if◌then◌else◌, Option, none, some, get_or,
  List, [], ◌∷◌, ◌++◌, filter, Dict, lookup, insert,
}

pub data EventType : Type 0 where
  transition compensation : EventType

pub record VersionedTransitionEvent : Type 0 where
  pub flow_id : String
  pub version : ℕ
  pub type : EventType
  pub from : Option String
  pub to : String
  pub trigger : String
  pub timestamp : ℕ
  pub state_snapshot : String

pub record EventLogStore (S : Type 0) : Type 0 where
  pub delegate : S
  pub event_log : List VersionedTransitionEvent
  pub version_counters : Dict ℕ

-- `this.versionCounters.get(flowId) ?? 0`
unfoldable pub version_of : {S : Type 0} → String → EventLogStore S → ℕ
version_of id s = get_or 0 (lookup id s.version_counters)

-- What an operation on the log is given.
pub record Entry : Type 0 where
  pub type : EventType
  pub from : Option String
  pub to : String
  pub trigger : String
  pub timestamp : ℕ
  pub state_snapshot : String

module _ {S : Type 0} where
  unfoldable pub event_log_store : S → EventLogStore S
  event_log_store delegate = record { delegate = delegate; event_log = []; version_counters = [] }

  -- The next version of the flow, which is counted before the event is built.
  unfoldable pub bump : String → EventLogStore S → EventLogStore S
  bump id s = record s { version_counters = insert id (version_of id s + 1) s.version_counters }

  -- The next version of the flow, and an event that has it.
  unfoldable pub push : String → Entry → EventLogStore S → EventLogStore S
  unfolding bump
  push id x s = record (bump id s) {
    event_log =
        s.event_log
        ++ record {
          flow_id = id;
          version = version_of id s + 1;
          type = x.type;
          from = x.from;
          to = x.to;
          trigger = x.trigger;
          timestamp = x.timestamp;
          state_snapshot = x.state_snapshot;
        }
          ∷ [];
  }

  -- The event of a transition, of which `printed` is what printing the data gives.
  unfoldable pub record_printed :
      String
      → Option String
      → String
      → String
      → ℕ
      → Reply String
      → EventLogStore S
      → EventLogStore S × Reply (Unit {0})
  record_printed id from to trigger now (throws x) s = (bump id s, throws x)
  record_printed id from to trigger now (returns data_text) s = (
    push id
        (record {
          type = transition;
          from = from;
          to = to;
          trigger = trigger;
          timestamp = now;
          state_snapshot = data_text;
        })
        s,
    returns tt,
  )

  -- What follows the call of the store that is wrapped, which leaves `recorded.0` of it.
  unfoldable pub record_after :
      S × Reply (Unit {0})
      → (EventLogStore S → EventLogStore S × Reply (Unit {0}))
      → EventLogStore S
      → EventLogStore S × Reply (Unit {0})
  record_after (delegate, throws x) rest s = (record s { delegate = delegate }, throws x)
  record_after (delegate, returns u) rest s = rest (record s { delegate = delegate })

  unfoldable pub record_transition :
      (S → S × Reply (Unit {0}))
      → String
      → Option String
      → String
      → String
      → ℕ
      → Reply String
      → EventLogStore S
      → EventLogStore S × Reply (Unit {0})
  unfolding record_after record_printed
  record_transition recorded id from to trigger now printed s =
      record_after (recorded s.delegate) (record_printed id from to trigger now printed) s

  unfoldable pub append_compensation :
      String → String → String → ℕ → EventLogStore S → EventLogStore S
  append_compensation id trigger metadata now = push id (record {
    type = compensation;
    from = none;
    to = "COMPENSATED";
    trigger = trigger;
    timestamp = now;
    state_snapshot = metadata;
  })

  unfoldable pub events_for_flow : String → EventLogStore S → List VersionedTransitionEvent
  events_for_flow id s = filter (λ e. e.flow_id == id) s.event_log

  -- Where the store that is wrapped throws, the log is kept.
  unfoldable pub clear :
      (S → S × Reply (Unit {0})) → EventLogStore S → EventLogStore S × Reply (Unit {0})
  unfolding record_after
  clear cleared s =
      record_after (cleared s.delegate)
        (λ kept. (record kept { event_log = []; version_counters = [] }, returns tt)) s

is_transition : EventType → Bool
is_transition transition = true
is_transition compensation = false

-- `sort((a, b) => a.version - b.version)`, which keeps the order of equal versions.
insert_by_version :
    VersionedTransitionEvent → List VersionedTransitionEvent → List VersionedTransitionEvent
insert_by_version x [] = x ∷ []
insert_by_version x (y ∷ ys) =
    let later = insert_by_version x ys in if leb y.version x.version then y ∷ later else x ∷ y ∷ ys

sort_onto :
    List VersionedTransitionEvent → List VersionedTransitionEvent → List VersionedTransitionEvent
unfolding insert_by_version
sort_onto sorted [] = sorted
sort_onto sorted (x ∷ xs) = sort_onto (insert_by_version x sorted) xs

last_target : List VersionedTransitionEvent → Option String
last_target [] = none
last_target (e ∷ []) = some e.to
last_target (e ∷ f ∷ es) = last_target (f ∷ es)

-- `flowEvents`, before it is sorted.
unfoldable pub matching : String → ℕ → VersionedTransitionEvent → Bool
unfolding is_transition
matching id target e = e.flow_id == id && is_transition e.type && leb e.version target

-- The state at a version: the target of the last transition up to it.
unfoldable pub state_at_version : List VersionedTransitionEvent → String → ℕ → Option String
unfolding sort_onto last_target
state_at_version events id target = last_target (sort_onto [] (filter (matching id target) events))

-- The fold of the reducer over the events of the flow up to the version.
unfoldable pub projection_at :
    {T : Type 0}
    → T
    → (T → VersionedTransitionEvent → T)
    → List VersionedTransitionEvent
    → String
    → ℕ
    → T
projection_at state apply [] id target = state
projection_at state apply (e ∷ es) id target =
    projection_at (if e.flow_id == id && leb e.version target then apply state e else state) apply
      es id target

-- `plan` is what the resolver gives for the event or throws: the action, and what printing the
-- metadata gives.
unfoldable pub compensate :
    {S : Type 0}
    → Reply (Option (String × Reply String))
    → String
    → ℕ
    → EventLogStore S
    → EventLogStore S × Reply Bool
compensate (throws x) id now s = (s, throws x)
compensate (returns none) id now s = (s, returns false)
compensate (returns (some (action, throws x))) id now s = (s, throws x)
compensate (returns (some (action, returns metadata))) id now s =
    (append_compensation id action metadata now s, returns true)
