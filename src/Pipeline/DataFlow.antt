-- ===== src/Pipeline/DataFlow.antt =====
-- What the data flow of a pipeline (`PipelineDataFlow` of lang/ts/src/pipeline.ts) tells.
use tramli.Prelude.{
  String, ◌≡◌, ◌∙◌, sym, subst, true, false, if◌then◌else◌, ◌⊎◌, inl, inr, ◌↔◌, List, [], ◌∷◌,
  contains, add, add_all, Bool-cases, Member, here, there, Member-cons, Member-nil,
}
use tramli.Pipeline.{
  PipelineStep, PipelineDataFlow, all_consumed, all_produced, dead_among, dead_data,
}
use tramli.Pipeline.Available.{
  contains-Member, Member-contains, Member-add, add-Member, add-Member_old, Member-add_all,
  add_all-Member, add_all-Member_old,
}

module _ {W : Type 0} where
  abbrev pub RequiredIn : String → List (PipelineStep W) → Type 0
  RequiredIn k steps = (s : PipelineStep W) × Member s steps × Member k s.requires

  abbrev pub ProducedIn : String → List (PipelineStep W) → Type 0
  ProducedIn k steps = (s : PipelineStep W) × Member s steps × Member k s.produces

  consumed-RequiredIn :
      {k : String} (steps : List (PipelineStep W)) (before : List String)
      → Member k (all_consumed steps before)
      → Member k before ⊎ RequiredIn k steps
  unfolding all_consumed
  consumed-RequiredIn [] before m = inl m
  consumed-RequiredIn (s ∷ steps) before m =
      elim (consumed-RequiredIn steps (add_all s.requires before) m) [
        | inl l ↦ elim (Member-add_all s.requires before l) [
          | inl r ↦ inr (s, here, r)
          | inr o ↦ inl o
        ]
        | inr (t, mt, mk) ↦ inr (t, there mt, mk)
      ]

  all_consumed-old :
      {k : String} (steps : List (PipelineStep W)) (before : List String)
      → Member k before
      → Member k (all_consumed steps before)
  unfolding all_consumed
  all_consumed-old [] before m = m
  all_consumed-old (s ∷ steps) before m =
      all_consumed-old steps (add_all s.requires before) (add_all-Member_old s.requires before m)

  RequiredIn-consumed :
      {k : String} (steps : List (PipelineStep W)) (before : List String)
      → RequiredIn k steps
      → Member k (all_consumed steps before)
  unfolding all_consumed
  RequiredIn-consumed [] before (s, m, mk) = absurd (Member-nil m)
  RequiredIn-consumed {k} (s ∷ steps) before (t, m, mk) = elim (Member-cons m) [
    | inl q ↦
        all_consumed-old steps (add_all s.requires before)
          (add_all-Member before (subst (λ z. Member k z.requires) (sym q) mk))
    | inr n ↦ RequiredIn-consumed steps (add_all s.requires before) (t, n, mk)
  ]

  produced-ProducedIn :
      {k : String} (steps : List (PipelineStep W)) (before : List String)
      → Member k (all_produced steps before)
      → Member k before ⊎ ProducedIn k steps
  unfolding all_produced
  produced-ProducedIn [] before m = inl m
  produced-ProducedIn (s ∷ steps) before m =
      elim (produced-ProducedIn steps (add_all s.produces before) m) [
        | inl l ↦ elim (Member-add_all s.produces before l) [
          | inl r ↦ inr (s, here, r)
          | inr o ↦ inl o
        ]
        | inr (t, mt, mk) ↦ inr (t, there mt, mk)
      ]

  all_produced-old :
      {k : String} (steps : List (PipelineStep W)) (before : List String)
      → Member k before
      → Member k (all_produced steps before)
  unfolding all_produced
  all_produced-old [] before m = m
  all_produced-old (s ∷ steps) before m =
      all_produced-old steps (add_all s.produces before) (add_all-Member_old s.produces before m)

  ProducedIn-produced :
      {k : String} (steps : List (PipelineStep W)) (before : List String)
      → ProducedIn k steps
      → Member k (all_produced steps before)
  unfolding all_produced
  ProducedIn-produced [] before (s, m, mk) = absurd (Member-nil m)
  ProducedIn-produced {k} (s ∷ steps) before (t, m, mk) = elim (Member-cons m) [
    | inl q ↦
        all_produced-old steps (add_all s.produces before)
          (add_all-Member before (subst (λ z. Member k z.produces) (sym q) mk))
    | inr n ↦ ProducedIn-produced steps (add_all s.produces before) (t, n, mk)
  ]

dead_among-Member :
    {k : String} (ks consumed dead : List String)
    → Member k (dead_among ks consumed dead)
    → Member k dead ⊎ (Member k ks × ¬ Member k consumed)
unfolding dead_among
dead_among-Member [] consumed dead m = inl m
dead_among-Member {k} (j ∷ ks) consumed dead m = elim (Bool-cases (contains j consumed)) [
  | inl e ↦ elim (dead_among-Member ks consumed dead (rw e at m)) [
    | inl l ↦ inl l
    | inr (n, free) ↦ inr (there n, free)
  ]
  | inr e ↦ elim (dead_among-Member ks consumed (add j dead) (rw e at m)) [
    | inl l ↦ elim (Member-add dead l) [
      | inl q ↦ inr (
        subst (λ z. Member z (j ∷ ks)) q here,
        λ n. true_not_false (sym (Member-contains (subst (λ z. Member z consumed) (sym q) n)) ∙ e),
      )
      | inr o ↦ inl o
    ]
    | inr (n, free) ↦ inr (there n, free)
  ]
]
  where
    true_not_false : ¬ true ≡ false
    true_not_false h = cc

dead_among-old :
    {k : String} (ks consumed dead : List String)
    → Member k dead
    → Member k (dead_among ks consumed dead)
unfolding dead_among
dead_among-old [] consumed dead m = m
dead_among-old (j ∷ ks) consumed dead m = elim (Bool-cases (contains j consumed)) [
  | inl e ↦ rw e (dead_among-old ks consumed dead m)
  | inr e ↦ rw e (dead_among-old ks consumed (add j dead) (add-Member_old j dead m))
]

Member-dead_among :
    {k : String} (ks consumed dead : List String)
    → Member k ks
    → ¬ Member k consumed
    → Member k (dead_among ks consumed dead)
unfolding dead_among
Member-dead_among [] consumed dead m free = absurd (Member-nil m)
Member-dead_among {k} (j ∷ ks) consumed dead here free = elim (Bool-cases (contains j consumed)) [
  | inl e ↦ absurd (free (contains-Member j consumed e))
  | inr e ↦ rw e (dead_among-old ks consumed (add j dead) (add-Member j dead))
]
Member-dead_among (j ∷ ks) consumed dead (there m) free =
    Member-dead_among ks consumed (if contains j consumed then dead else add j dead) m free

module _ {W : Type 0} where
  -- The dead data are exactly the keys that are available from the start or produced by a step, and
  -- that no step requires.
  pub dead_data_lem :
      (d : PipelineDataFlow W) (k : String)
      → Member k (dead_data d)
        ↔ ((Member k d.initially_available ⊎ ProducedIn k d.steps) × ¬ RequiredIn k d.steps)
  unfolding dead_data
  dead_data_lem d k = (dead_only, is_dead)
    where
      dead_only :
          Member k (dead_data d)
          → (Member k d.initially_available ⊎ ProducedIn k d.steps) × ¬ RequiredIn k d.steps
      dead_only m =
          elim (dead_among-Member (all_produced d.steps d.initially_available)
            (all_consumed d.steps []) [] m) [
              | inl l ↦ absurd (Member-nil l)
              | inr (n, free) ↦ (
                produced-ProducedIn d.steps d.initially_available n,
                λ r. free (RequiredIn-consumed d.steps [] r),
              )
            ]

      there_is :
          Member k d.initially_available ⊎ ProducedIn k d.steps
          → Member k (all_produced d.steps d.initially_available)
      there_is (inl m) = all_produced-old d.steps d.initially_available m
      there_is (inr p) = ProducedIn-produced d.steps d.initially_available p

      unused : ¬ RequiredIn k d.steps → ¬ Member k (all_consumed d.steps [])
      unused free m = elim (consumed-RequiredIn d.steps [] m) [
        | inl l ↦ absurd (Member-nil l)
        | inr r ↦ free r
      ]

      is_dead :
          (Member k d.initially_available ⊎ ProducedIn k d.steps) × ¬ RequiredIn k d.steps
          → Member k (dead_data d)
      is_dead (m, free) = Member-dead_among _ _ [] (there_is m) (unused free)
