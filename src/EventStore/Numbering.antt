-- ===== src/EventStore/Numbering.antt =====
-- How the events of a flow are numbered. The counter of the flow is advanced before the data are
-- printed: where printing throws, the number is used up without an event.
use tramli.Prelude.{
  String, ◌==◌, ◌≡◌, refl, sym, ◌∙◌, ap, ℕ, ◌+◌, ◌≤◌, Bool, true, false, if◌then◌else◌, List, [],
  ◌∷◌, ◌++◌, filter, length, length-append, lookup, lookup-insert, arith, eq_iff, Bool-cases, ◌⊎◌,
  inl, inr, Option, Member, here, there, Member-cons, Member-nil, subst,
}
use mathlib.Core.List.{append-nil, append_assoc}
use tramli.Types.{Reply, returns, throws}
use tramli.EventStore.{
  VersionedTransitionEvent, EventLogStore, Entry, version_of, event_log_store, bump, push,
  record_printed, record_after, record_transition, append_compensation, events_for_flow,
}
use tramli.EventStore.History.{
  count_from, numbered, versions, LogOp, recording, compensating, appending, run_op, run_ops,
  mark_recorded, marks_of, marks,
}
use tramli.EventStore.Numbered.{numbered-append, numbered-count_from, numbered-bound}

pub filter-concat :
    {A : Type 0} (p : A → Bool) (xs : List A) (x : A)
    → filter p (xs ++ x ∷ []) ≡ filter p xs ++ (if p x then x ∷ [] else [])
filter-concat p [] x = refl
filter-concat p (y ∷ xs) x = ground (arith, filter-concat p xs x)

versions-append :
    (es fs : List VersionedTransitionEvent) → versions (es ++ fs) ≡ versions es ++ versions fs
versions-append [] fs = refl
versions-append (e ∷ es) fs = ap (λ z. e.version ∷ z) (versions-append es fs)

module _ {S : Type 0} where
  -- What a call does to the numbers of a flow.
  abbrev Goes : String → List Bool → EventLogStore S → EventLogStore S → Type 0
  Goes id bs s t =
      (versions (events_for_flow id t)
        ≡ versions (events_for_flow id s) ++ numbered (version_of id s) bs)
      × (version_of id t ≡ version_of id s + length bs)

  Goes-none : (id : String) (s : EventLogStore S) → Goes id [] s s
  Goes-none id s = (sym (append-nil (versions (events_for_flow id s))), omega arith)

  Goes-append :
      (id : String) (bs cs : List Bool) (s t u : EventLogStore S)
      → Goes id bs s t
      → Goes id cs t u
      → Goes id (bs ++ cs) s u
  Goes-append id bs cs s t u (h, k) (l, n) = (
    l
        ∙ ap (λ z. z ++ numbered (version_of id t) cs) h
        ∙ append_assoc (versions (events_for_flow id s)) _ _
        ∙ ap
            (λ z.
              versions (events_for_flow id s) ++ (numbered (version_of id s) bs ++ numbered z cs))
            k
        ∙ ap (λ z. versions (events_for_flow id s) ++ z)
            (sym (numbered-append (version_of id s) bs cs)),
    omega (arith, n, k, length-append bs cs),
  )

  version_of-bump :
      (own id : String) (s : EventLogStore S)
      → version_of id (bump own s) ≡ version_of id s + length (if own == id then false ∷ [] else [])
  unfolding bump version_of
  version_of-bump own id s = elim (Bool-cases (own == id)) [
    | inl e ↦
        let same : own ≡ id = (eq_iff own id).0 e in
        rw (lookup-insert own id (version_of own s + 1) s.version_counters, e)
          (ap (λ z. version_of z s + 1) same)
    | inr e ↦ rw (lookup-insert own id (version_of own s + 1) s.version_counters, e) (omega arith)
  ]

  bump-Goes :
      (own id : String) (s : EventLogStore S)
      → Goes id (if own == id then false ∷ [] else []) s (bump own s)
  unfolding bump events_for_flow
  bump-Goes own id s = (no_event (own == id), version_of-bump own id s)
    where
      no_event :
          (mine : Bool)
          → versions (events_for_flow id s)
            ≡ versions (events_for_flow id s)
              ++ numbered (version_of id s) (if mine then false ∷ [] else [])
      no_event true = sym (append-nil _)
      no_event false = sym (append-nil _)

  push-Goes :
      (own id : String) (x : Entry) (s : EventLogStore S)
      → Goes id (if own == id then true ∷ [] else []) s (push own x s)
  unfolding push bump events_for_flow version_of
  push-Goes own id x s = (
    ap versions (filter-concat (λ e. e.flow_id == id) s.event_log _)
        ∙ versions-append (filter (λ e. e.flow_id == id) s.event_log) _
        ∙ ap (λ z. versions (events_for_flow id s) ++ z) (by_flow (Bool-cases (own == id))),
    version_of-bump own id s ∙ by_length (own == id),
  )
    where
      event : VersionedTransitionEvent
      event = record {
        flow_id = own;
        version = version_of own s + 1;
        type = x.type;
        from = x.from;
        to = x.to;
        trigger = x.trigger;
        timestamp = x.timestamp;
        state_snapshot = x.state_snapshot;
      }

      by_length :
          (mine : Bool)
          → version_of id s + length (if mine then false ∷ [] else [])
            ≡ version_of id s + length (if mine then true ∷ [] else [])
      by_length true = refl
      by_length false = refl

      by_flow :
          (own == id ≡ true) ⊎ (own == id ≡ false)
          → versions (if own == id then event ∷ [] else [])
            ≡ numbered (version_of id s) (if own == id then true ∷ [] else [])
      by_flow (inl e) = rw e (ap (λ z. (version_of z s + 1) ∷ []) ((eq_iff own id).0 e))
      by_flow (inr e) = rw e refl

  recording-Goes :
      (own id : String) (answer : S × Reply (Unit {0})) (from : Option String) (to trigger : String)
      (now : ℕ) (printed : Reply String) (s : EventLogStore S)
      → Goes id
          (if own == id then mark_recorded answer.1 printed else [])
          s
          (record_after answer (record_printed own from to trigger now printed) s).0
  unfolding record_after record_printed events_for_flow version_of
  recording-Goes own id (delegate, throws x) from to trigger now printed s = by_flow (own == id)
    where
      by_flow :
          (mine : Bool) → Goes id (if mine then [] else []) s (record s { delegate = delegate })
      by_flow true = Goes-none id (record s { delegate = delegate })
      by_flow false = Goes-none id (record s { delegate = delegate })
  recording-Goes own id (delegate, returns u) from to trigger now (throws x) s =
      bump-Goes own id (record s { delegate = delegate })
  recording-Goes own id (delegate, returns u) from to trigger now (returns text) s =
      push-Goes own id _ (record s { delegate = delegate })

  run_op-Goes :
      (id : String) (op : LogOp S) (s : EventLogStore S)
      → Goes id (marks_of id op s) s (run_op op s)
  unfolding record_transition append_compensation
  run_op-Goes id (recording recorded own from to trigger now printed) s =
      recording-Goes own id (recorded s.delegate) from to trigger now printed s
  run_op-Goes id (compensating own trigger metadata now) s = push-Goes own id _ s
  run_op-Goes id (appending own x) s = push-Goes own id x s

  run_ops-Goes :
      (id : String) (ops : List (LogOp S)) (s : EventLogStore S)
      → Goes id (marks id ops s) s (run_ops ops s)
  run_ops-Goes id [] s = Goes-none id s
  run_ops-Goes id (op ∷ ops) s =
      Goes-append id (marks_of id op s) (marks id ops (run_op op s)) s (run_op op s)
        (run_ops ops (run_op op s)) (run_op-Goes id op s) (run_ops-Goes id ops (run_op op s))

  -- Whatever calls record transitions and compensations from the empty log on, in any order and for
  -- any flows, also where the wrapped store or the printing of the data throws: the counter of a
  -- flow is the number of its calls on which the wrapped store did not throw; the events of the
  -- flow have, in the order of the log, the positions among these calls, from 1 on, of those on
  -- which the printing did not throw either; where it threw on none of them, they are numbered 1,
  -- 2, … up to the counter.
  pub events-numbered :
      (delegate : S) (ops : List (LogOp S)) (id : String)
      → (version_of id (run_ops ops (event_log_store delegate))
          ≡ length (marks id ops (event_log_store delegate)))
        × (versions (events_for_flow id (run_ops ops (event_log_store delegate)))
            ≡ numbered 0 (marks id ops (event_log_store delegate)))
        × (¬ Member false (marks id ops (event_log_store delegate))
            → versions (events_for_flow id (run_ops ops (event_log_store delegate)))
              ≡ count_from 0 (version_of id (run_ops ops (event_log_store delegate))))
  unfolding event_log_store events_for_flow version_of lookup
  events-numbered delegate ops id = (
    omega (arith, counter),
    numbers,
    λ all. numbers ∙ numbered-count_from 0 bs all ∙ ap (count_from 0) (omega (arith, counter)),
  )
    where
      bs : List Bool
      bs = marks id ops (event_log_store delegate)

      gone : Goes id bs (event_log_store delegate) (run_ops ops (event_log_store delegate))
      gone = run_ops-Goes id ops (event_log_store delegate)

      numbers :
          versions (events_for_flow id (run_ops ops (event_log_store delegate))) ≡ numbered 0 bs
      numbers = gone.0

      counter : version_of id (run_ops ops (event_log_store delegate)) ≡ 0 + length bs
      counter = gone.1

versions-Member :
    (es : List VersionedTransitionEvent) {e : VersionedTransitionEvent}
    → Member e es
    → Member e.version (versions es)
versions-Member [] m = absurd (Member-nil m)
versions-Member (f ∷ es) m = elim (Member-cons m) [
  | inl q ↦ subst (λ z. Member z (f.version ∷ versions es)) (ap (λ z. z.version) q) here
  | inr n ↦ there (versions-Member es n)
]

-- No event of a flow has a version above the flow's counter.
pub events-bounded :
    {S : Type 0} (delegate : S) (ops : List (LogOp S)) (id : String) {e : VersionedTransitionEvent}
    → Member e (events_for_flow id (run_ops ops (event_log_store delegate)))
    → e.version ≤ version_of id (run_ops ops (event_log_store delegate))
events-bounded delegate ops id {e} m =
    let (counter, numbers, all) = events-numbered delegate ops id in
    omega (
      arith,
      counter,
      numbered-bound 0 (marks id ops (event_log_store delegate))
          (subst (Member e.version) numbers (versions-Member _ m)),
    )
