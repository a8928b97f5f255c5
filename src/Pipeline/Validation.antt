-- ===== src/Pipeline/Validation.antt =====
-- What `build` of lang/ts/src/pipeline.ts accepts.
use tramli.Prelude.{
  String, ◌≡◌, refl, ◌⊎◌, inl, inr, ◌↔◌, List, [], ◌∷◌, contains, add_all, arith, sym, Bool-cases,
  Member, here, there, Member-cons, Member-nil, At, at_here, at_there, append-eq-nil, List-cases,
  subst,
}
use tramli.Pipeline.{
  PipelineStep, Pipeline, PipelineBuilder, missing_errors, validate, built, unless_errors, build,
}
use tramli.Pipeline.Available.{
  contains-Member, Member-contains, Member-add_all, add_all-Member, add_all-Member_old,
}

missing_errors-nil :
    (name : String) (ks available : List String) {k : String}
    → missing_errors name ks available ≡ []
    → Member k ks
    → Member k available
unfolding missing_errors
missing_errors-nil name [] available h m = absurd (Member-nil m)
missing_errors-nil name (j ∷ ks) available {k} h m = elim (Bool-cases (contains j available)) [
  | inl e ↦ elim (Member-cons m) [
    | inl q ↦ subst (λ z. Member z available) q (contains-Member j available e)
    | inr n ↦ missing_errors-nil name ks available (rw e at h) n
  ]
  | inr e ↦ ground arith
]

nil-missing_errors :
    (name : String) (ks available : List String)
    → ((k : String) → Member k ks → Member k available)
    → missing_errors name ks available ≡ []
unfolding missing_errors
nil-missing_errors name [] available h = refl
nil-missing_errors name (j ∷ ks) available h =
    rw (Member-contains (h j here), nil-missing_errors name ks available (λ k m. h k (there m)))

module _ {W : Type 0} where
  -- Each key that a step requires is there from the start or produced by a step before it.
  abbrev pub Provided : List (PipelineStep W) → List String → Type 0
  Provided steps available =
      (before : List (PipelineStep W)) (s : PipelineStep W) (key : String)
      → At before s steps
      → Member key s.requires
      → Member key available ⊎ ((t : PipelineStep W) × Member t before × Member key t.produces)

  pub Provided-cons :
      (s : PipelineStep W) (steps : List (PipelineStep W)) (available : List String)
      → ((k : String) → Member k s.requires → Member k available)
      → Provided steps (add_all s.produces available)
      → Provided (s ∷ steps) available
  Provided-cons s steps available first rest [] t key at_here m = inl (first key m)
  Provided-cons s steps available first rest (y ∷ before) t key (at_there at) m =
      elim (rest before t key at m) [
        | inl l ↦ elim (Member-add_all s.produces available l) [
          | inl p ↦ inr (s, here, p)
          | inr o ↦ inl o
        ]
        | inr (u, mu, mk) ↦ inr (u, there mu, mk)
      ]

  validate-Provided :
      (steps : List (PipelineStep W)) (available : List String)
      → validate steps available ≡ []
      → Provided steps available
  unfolding validate
  validate-Provided [] available h before t key at m = elim at [ ]
  validate-Provided (s ∷ steps) available h [] t key at_here m =
      inl (missing_errors-nil s.name s.requires available (append-eq-nil _ _ h).0 m)
  validate-Provided (x ∷ steps) available h (y ∷ before) t key (at_there at) m =
      elim (validate-Provided steps (add_all x.produces available) (append-eq-nil _ _ h).1 before t
        key at m) [
          | inl l ↦ elim (Member-add_all x.produces available l) [
            | inl p ↦ inr (x, here, p)
            | inr o ↦ inl o
          ]
          | inr (u, mu, mk) ↦ inr (u, there mu, mk)
        ]

  pub Provided-rest :
      (s : PipelineStep W) (steps : List (PipelineStep W)) (available : List String)
      → Provided (s ∷ steps) available
      → Provided steps (add_all s.produces available)
  Provided-rest s steps available h before t key at m =
      elim (h (s ∷ before) t key (at_there at) m) [
        | inl l ↦ inl (add_all-Member_old s.produces available l)
        | inr (u, mu, mk) ↦ produced_earlier mu mk
      ]
    where
      produced_earlier :
          {t : PipelineStep W} {earlier : List (PipelineStep W)} {k : String}
          → Member t (s ∷ earlier)
          → Member k t.produces
          → Member k (add_all s.produces available)
            ⊎ ((u : PipelineStep W) × Member u earlier × Member k u.produces)
      produced_earlier {t} {earlier} {k} mt mk = elim (Member-cons mt) [
        | inl q ↦ inl (add_all-Member available (subst (λ z. Member k z.produces) (sym q) mk))
        | inr n ↦ inr (t, n, mk)
      ]

  Provided-validate :
      (steps : List (PipelineStep W)) (available : List String)
      → Provided steps available
      → validate steps available ≡ []
  unfolding validate
  Provided-validate [] available h = refl
  Provided-validate (s ∷ steps) available h = rw (
    nil-missing_errors s.name s.requires available first,
    Provided-validate steps (add_all s.produces available) (Provided-rest s steps available h),
  )
    where
      first : (k : String) → Member k s.requires → Member k available
      first k m = elim (h [] s k at_here m) [ inl l ↦ l | inr (t, mt, mk) ↦ absurd (Member-nil mt) ]

  unless_errors-invalid :
      (b : PipelineBuilder W) (e : String) (rest : List String) {p : Pipeline W}
      → ¬ unless_errors b (e ∷ rest) ≡ built p
  unfolding unless_errors
  unless_errors-invalid b e rest h = cc

  -- `build` accepts a pipeline exactly when each key that a step requires is available from the
  -- start or produced by a step before it.
  pub build_lem :
      (b : PipelineBuilder W)
      → ((p : Pipeline W) × (build b ≡ built p)) ↔ Provided b.steps b.initially_available
  unfolding build unless_errors
  build_lem b = (accepted_only, accepts)
    where
      accepted_only :
          (p : Pipeline W) × (build b ≡ built p) → Provided b.steps b.initially_available
      accepted_only (p, h) = elim (List-cases (validate b.steps b.initially_available)) [
        | inl empty ↦ validate-Provided b.steps b.initially_available empty
        | inr (e, rest, nonempty) ↦ absurd (unless_errors-invalid b e rest (rw nonempty at h))
      ]

      accepts : Provided b.steps b.initially_available → (p : Pipeline W) × (build b ≡ built p)
      accepts h = rw (Provided-validate b.steps b.initially_available h) (_, refl)
