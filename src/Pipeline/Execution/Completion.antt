-- ===== src/Pipeline/Execution/Completion.antt =====
-- A pipeline of steps that keep their word runs to its end.
use tramli.Prelude.{
  String, ℕ, ◌≡◌, refl, sym, ◌∙◌, ap, Bool, true, false, if◌then◌else◌, ◌⊎◌, inl, inr, Option, none,
  some, List, [], ◌∷◌, ◌++◌, map, Dict, Member, here, there, Member-cons, Member-nil, subst,
  add_all, is_some, lookup, insert_all, at_here,
}
use mathlib.Core.List.{append_assoc, append-nil}
use tramli.Context
use tramli.Context.{Context, Value, has_key, put_all}
use tramli.Types.{returns}
use tramli.Pipeline.{PipelineStep, Pipeline}
use tramli.Pipeline.Validation.{Provided, Provided-rest}
use tramli.Pipeline.Available.{Member-add_all}
use tramli.Pipeline.Execution.{
  Progress, StepResult, went_on, first_missing, log, verify, after_process, announce, attempt,
  go_on, run_steps, execute,
}

first_missing-none :
    (ks : List String) (c : Context)
    → ((k : String) → Member k ks → has_key k c ≡ true)
    → first_missing ks c ≡ none
unfolding first_missing
first_missing-none [] c h = refl
first_missing-none (k ∷ ks) c h = rw (h k here, first_missing-none ks c (λ j m. h j (there m)))

module _ {W : Type 0} where
  -- Given what it requires, the step returns; it puts what it declares, and drops nothing.
  abbrev pub KeepsWord : PipelineStep W → Type 0
  KeepsWord s =
      (w : W) (c : Context)
      → ((k : String) → Member k s.requires → has_key k c ≡ true)
      → (v : W) × (d : Context) × (s.process w c ≡ (v, d, returns tt))
        × ((k : String) → Member k s.produces → has_key k d ≡ true)
        × ((k : String) → has_key k c ≡ true → has_key k d ≡ true)

  abbrev pub names : List (PipelineStep W) → List String
  names steps = map (λ s. s.name) steps

  module _ (p : Pipeline W) (flow_id : String) where
    abbrev Advanced : PipelineStep W → Context → Progress W → StepResult W → Type 0
    Advanced s d g r =
        (h : Progress W) × (r ≡ went_on h)
        × (h.context ≡ d)
        × (h.completed ≡ g.completed ++ s.name ∷ [])

    verify-goes_on :
        (s : PipelineStep W) (before : List String) (g : Progress W) (missing : Option String)
        → missing ≡ none
        → Advanced s g.context g (verify p flow_id s before g missing)
    unfolding verify log
    verify-goes_on s before g none h = (_, refl, refl, refl)
    verify-goes_on s before g (some k) h = cc

    attempt-goes_on :
        (s : PipelineStep W) (g : Progress W) (v : W) (d : Context)
        → s.process g.world g.context ≡ (v, d, returns tt)
        → ((k : String) → Member k s.produces → has_key k d ≡ true)
        → Advanced s d g (attempt p flow_id s g)
    unfolding attempt announce after_process log
    attempt-goes_on s g v d h made = rw h (verify-goes_on s _ _ _ (none_missing p.strict_mode))
      where
        none_missing :
            (strict : Bool) → (if strict then first_missing s.produces d else none) ≡ none
        none_missing true = first_missing-none s.produces d made
        none_missing false = refl

    -- The run of a list of steps whose requirements are met: by the context, or by steps before.
    run_steps-completes :
        (steps : List (PipelineStep W)) (g : Progress W) (available : List String)
        → Provided steps available
        → ((s : PipelineStep W) → Member s steps → KeepsWord s)
        → ((k : String) → Member k available → has_key k g.context ≡ true)
        → (h : Progress W) × (run_steps p flow_id steps g ≡ went_on h)
          × (h.completed ≡ g.completed ++ names steps)
          × ((k : String) → has_key k g.context ≡ true → has_key k h.context ≡ true)
          × ((s : PipelineStep W) (k : String)
              → Member s steps
              → Member k s.produces
              → has_key k h.context ≡ true)
    unfolding run_steps go_on
    run_steps-completes [] g available provided word there_is =
        (g, refl, sym (append-nil g.completed), λ k q. q, λ s k m. absurd (Member-nil m))
    run_steps-completes (s ∷ steps) g available provided word there_is =
        let (v, d, answered, made, kept) =
          word s here g.world g.context (λ k m. there_is k (met (provided [] s k at_here m))) in
        let (h, gone, context, completed) = attempt-goes_on s g v d answered made in
        let (l, ran, listed, still, put) =
          run_steps-completes steps h (add_all s.produces available)
            (Provided-rest s steps available provided) (λ t m. word t (there m))
            (λ k m. rw context (after d made kept (Member-add_all s.produces available m))) in
        (
          l,
          rw gone ran,
          listed ∙ ap (λ z. z ++ names steps) completed ∙ append_assoc g.completed (s.name ∷ []) _,
          λ k q. still k (rw context (kept k q)),
          λ t k m q. elim (Member-cons m) [
            | inl e ↦ still k (rw context (made k (subst (λ z. Member k z.produces) (sym e) q)))
            | inr n ↦ put t k n q
          ],
        )
      where
        met :
            {k : String}
            → Member k available ⊎ ((t : PipelineStep W) × Member t [] × Member k t.produces)
            → Member k available
        met (inl m) = m
        met (inr (t, m, _)) = absurd (Member-nil m)

        after :
            {k : String} (d : Context)
            → ((j : String) → Member j s.produces → has_key j d ≡ true)
            → ((j : String) → has_key j g.context ≡ true → has_key j d ≡ true)
            → Member k s.produces ⊎ Member k available
            → has_key k d ≡ true
        after {k} d made kept (inl m) = made k m
        after {k} d made kept (inr m) = kept k (there_is k m)

  -- A pipeline whose requirements are provided and whose steps keep their word runs to its end, in
  -- strict mode or not and with any loggers, on data that have what is initially available: it
  -- throws nothing, completes every step in order, and ends with each key that was there at the
  -- start or that a step declares.
  pub execute-completes :
      (p : Pipeline W) (flow_id : String) (created_at : ℕ) (initial : Dict Value) (w : W)
      → Provided p.steps p.initially_available
      → ((s : PipelineStep W) → Member s p.steps → KeepsWord s)
      → ((k : String)
          → Member k p.initially_available
          → is_some (lookup k (insert_all initial [])) ≡ true)
      → (h : Progress W) × (execute p flow_id created_at initial w ≡ went_on h)
        × (h.completed ≡ names p.steps)
        × ((k : String)
            → is_some (lookup k (insert_all initial [])) ≡ true
            → has_key k h.context ≡ true)
        × ((s : PipelineStep W) (k : String)
            → Member s p.steps
            → Member k s.produces
            → has_key k h.context ≡ true)
  unfolding execute put_all Context.new has_key
  execute-completes p flow_id created_at initial w provided word there_is =
      run_steps-completes p flow_id p.steps _ p.initially_available provided word there_is
