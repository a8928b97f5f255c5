-- ===== src/EventStore/History.antt =====
-- Sequences of calls that record on the event log, and which of them use up a number of a flow.
use tramli.Prelude.{
  String, ◌==◌, ℕ, zero, suc, ◌+◌, Bool, true, false, if◌then◌else◌, Option, List, [], ◌∷◌, ◌++◌,
  map,
}
use tramli.Types.{Reply, returns, throws}
use tramli.EventStore.{
  VersionedTransitionEvent, EventLogStore, Entry, push, record_transition, append_compensation,
}

-- n + 1, n + 2, …, n + k
abbrev pub count_from : ℕ → ℕ → List ℕ
count_from n zero = []
count_from n (suc k) = (n + 1) ∷ count_from (n + 1) k

-- The numbers after `n` of those marks that are true.
abbrev pub numbered : ℕ → List Bool → List ℕ
numbered n [] = []
numbered n (true ∷ marks) = (n + 1) ∷ numbered (n + 1) marks
numbered n (false ∷ marks) = numbered (n + 1) marks

abbrev pub versions : List VersionedTransitionEvent → List ℕ
versions es = map (λ e. e.version) es

-- What is recorded on the log: a transition, a compensation, or any entry, as both append one.
pub data LogOp (S : Type 0) : Type 0 where
  recording :
      (S → S × Reply (Unit {0}))
      → String
      → Option String
      → String
      → String
      → ℕ
      → Reply String
      → LogOp S
  compensating : String → String → String → ℕ → LogOp S
  appending : String → Entry → LogOp S

abbrev pub mark_printed : Reply String → List Bool
mark_printed (returns data_text) = true ∷ []
mark_printed (throws x) = false ∷ []

abbrev pub mark_recorded : Reply (Unit {0}) → Reply String → List Bool
mark_recorded (returns u) printed = mark_printed printed
mark_recorded (throws x) printed = []

module _ {S : Type 0} where
  abbrev pub run_op : LogOp S → EventLogStore S → EventLogStore S
  run_op (recording recorded id from to trigger now printed) s =
      (record_transition recorded id from to trigger now printed s).0
  run_op (compensating id trigger metadata now) s = append_compensation id trigger metadata now s
  run_op (appending id x) s = push id x s

  -- The calls, one after the other; what one of them throws does not stop the next.
  abbrev pub run_ops : List (LogOp S) → EventLogStore S → EventLogStore S
  run_ops [] s = s
  run_ops (op ∷ ops) s = run_ops ops (run_op op s)

  abbrev pub marks_of : String → LogOp S → EventLogStore S → List Bool
  marks_of id (recording recorded own from to trigger now printed) s =
      if own == id then mark_recorded (recorded s.delegate).1 printed else []
  marks_of id (compensating own trigger metadata now) s = if own == id then true ∷ [] else []
  marks_of id (appending own x) s = if own == id then true ∷ [] else []

  -- The calls for a flow that use up a number, in order, and whether they append an event: all but
  -- those on which the wrapped store throws, and those of them where the data are printed.
  abbrev pub marks : String → List (LogOp S) → EventLogStore S → List Bool
  marks id [] s = []
  marks id (op ∷ ops) s = marks_of id op s ++ marks id ops (run_op op s)
