-- ===== src/EventStore/Replay.antt =====
-- What the replay of the event log gives after a transition was recorded.
use tramli.Prelude.{
  filter-Member, String, ◌==◌, ◌≡◌, refl, subst, ◌∙◌, ap, ℕ, ◌+◌, ◌≤◌, leb, true, false,
  if◌then◌else◌, ◌⊎◌, inl, inr, some, List, [], ◌∷◌, ◌++◌, filter, arith, eq_refl, Bool-cases,
  Member, here, there, Member-cons, Member-nil, Member-filter,
}
use mathlib.Core.List.{append-nil}
use tramli.EventStore.{
  transition, VersionedTransitionEvent, EventLogStore, Entry, version_of, event_log_store, bump,
  push, events_for_flow, is_transition, insert_by_version, sort_onto, last_target, matching,
  state_at_version,
}
use tramli.EventStore.History.{LogOp, run_ops}
use tramli.EventStore.Numbering.{filter-concat, events-bounded}

abbrev Upto : ℕ → List VersionedTransitionEvent → Type 0
Upto n es = (e : VersionedTransitionEvent) → Member e es → e.version ≤ n

insert_by_version-last :
    (x : VersionedTransitionEvent) (es : List VersionedTransitionEvent)
    → Upto x.version es
    → insert_by_version x es ≡ es ++ x ∷ []
unfolding insert_by_version
insert_by_version-last x [] h = refl
insert_by_version-last x (e ∷ es) h =
    let first : e.version ≤ x.version = h e here in
    let fits : leb e.version x.version ≡ true = ground arith in
    rw fits (ap (λ z. e ∷ z) (insert_by_version-last x es (λ f m. h f (there m))))

insert_by_version-Member :
    (x : VersionedTransitionEvent) (es : List VersionedTransitionEvent)
    {e : VersionedTransitionEvent}
    → Member e (insert_by_version x es)
    → (x ≡ e) ⊎ Member e es
unfolding insert_by_version
insert_by_version-Member x [] m = Member-cons m
insert_by_version-Member x (y ∷ es) m = elim (Bool-cases (leb y.version x.version)) [
  | inl q ↦ elim (Member-cons (rw q at m)) [
    | inl same ↦ inr (subst (λ z. Member z (y ∷ es)) same here)
    | inr n ↦ elim (insert_by_version-Member x es n) [ inl same ↦ inl same | inr k ↦ inr (there k) ]
  ]
  | inr q ↦ Member-cons (rw q at m)
]

sort_onto-Upto :
    (n : ℕ) (sorted es : List VersionedTransitionEvent)
    → Upto n sorted
    → Upto n es
    → Upto n (sort_onto sorted es)
unfolding sort_onto
sort_onto-Upto n sorted [] h k = h
sort_onto-Upto n sorted (x ∷ es) h k =
    sort_onto-Upto n (insert_by_version x sorted) es inserted (λ e m. k e (there m))
  where
    inserted : Upto n (insert_by_version x sorted)
    inserted e m = elim (insert_by_version-Member x sorted m) [
      | inl same ↦ subst (λ z. z.version ≤ n) same (k x here)
      | inr l ↦ h e l
    ]

sort_onto-concat :
    (sorted es : List VersionedTransitionEvent) (x : VersionedTransitionEvent)
    → sort_onto sorted (es ++ x ∷ []) ≡ insert_by_version x (sort_onto sorted es)
unfolding sort_onto
sort_onto-concat sorted [] x = refl
sort_onto-concat sorted (e ∷ es) x = sort_onto-concat (insert_by_version e sorted) es x

last_target-concat :
    (es : List VersionedTransitionEvent) (x : VersionedTransitionEvent)
    → last_target (es ++ x ∷ []) ≡ some x.to
unfolding last_target
last_target-concat [] x = refl
last_target-concat (e ∷ []) x = refl
last_target-concat (e ∷ f ∷ es) x = last_target-concat (f ∷ es) x

module _ {S : Type 0} (delegate : S) (ops : List (LogOp S)) where
  -- The log after these calls.
  abbrev pub logged : EventLogStore S
  logged = run_ops ops (event_log_store delegate)

  matching-bounded :
      (id : String) (v : ℕ) → Upto (version_of id logged) (filter (matching id v) logged.event_log)
  unfolding matching events_for_flow
  matching-bounded id v e m =
      let (l, q) = Member-filter (matching id v) logged.event_log m in
      events-bounded delegate ops id
        (filter-Member (λ f. f.flow_id == id) logged.event_log l (ground arith))

  -- Whatever was recorded before, recording a transition of a flow, where its event is appended,
  -- makes its target the state at the flow's new version and at every later one, and leaves the
  -- states at the earlier versions as they were.
  pub replay-records :
      (id : String) (x : Entry) (v : ℕ)
      → x.type ≡ transition
      → (version_of id logged + 1 ≤ v
          → state_at_version (push id x logged).event_log id v ≡ some x.to)
        × (v ≤ version_of id logged
            → state_at_version (push id x logged).event_log id v
              ≡ state_at_version logged.event_log id v)
  unfolding state_at_version push bump
  replay-records id x v typed = (later, earlier)
    where
      event : VersionedTransitionEvent
      event = record {
        flow_id = id;
        version = version_of id logged + 1;
        type = x.type;
        from = x.from;
        to = x.to;
        trigger = x.trigger;
        timestamp = x.timestamp;
        state_snapshot = x.state_snapshot;
      }

      past : List VersionedTransitionEvent
      past = filter (matching id v) logged.event_log

      split :
          filter (matching id v) (push id x logged).event_log
          ≡ past ++ (if matching id v event then event ∷ [] else [])
      split = filter-concat (matching id v) logged.event_log event

      later :
          version_of id logged + 1 ≤ v
          → state_at_version (push id x logged).event_log id v ≡ some x.to
      later h =
          let fits : matching id v event ≡ true =
            unfold matching is_transition in (rw (typed, eq_refl id) (ground arith)) in
          let added : filter (matching id v) (push id x logged).event_log ≡ past ++ event ∷ [] =
            rw fits at split in
          ap (λ z. last_target (sort_onto [] z)) added
          ∙ ap last_target (sort_onto-concat [] past event)
          ∙ ap last_target (
              insert_by_version-last event (sort_onto [] past) (
                sort_onto-Upto event.version [] past (λ e m. absurd (Member-nil m))
                  (λ e m. omega (arith, matching-bounded id v e m))))
          ∙ last_target-concat (sort_onto [] past) event

      earlier :
          v ≤ version_of id logged
          → state_at_version (push id x logged).event_log id v
            ≡ state_at_version logged.event_log id v
      earlier h =
          let misses : matching id v event ≡ false =
            unfold matching is_transition in (rw (typed, eq_refl id) (ground arith)) in
          ap (λ z. last_target (sort_onto [] z)) ((rw misses at split) ∙ append-nil past)
