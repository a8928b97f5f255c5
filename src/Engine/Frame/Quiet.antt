-- ===== src/Engine/Frame/Quiet.antt =====
-- Actions that call no code of the user: they do not throw, and they leave the context alone.
use tramli.Prelude.{◌≡◌, refl, sym, subst, Bool, true, false}
use tramli.Context.{Context}
use tramli.Exec.{pure, gets, when, ◌>>=◌}
use tramli.Exec.Ensures.{Ensures, Ensures-pure, Ensures-bind, Ensures-when, Ensures-weaken}
use tramli.Engine.{LogEntry, Run, Act, now, update_flow, log_entry}

abbrev pub HasContext : {F : Type 0} → Context → Run F → Type 0
HasContext c r = r.env.context ≡ c

abbrev pub Quiet : {F A : Type 0} → Act F A → Type 0
Quiet {F} m = (c : Context) → Ensures (HasContext c) m (λ _. HasContext c) (λ _. ⊥)

module _ {F : Type 0} where
  pub now-Quiet : Quiet (now {F = F})
  unfolding now
  now-Quiet c = record { at = λ r h. h }

  pub update_flow-Quiet : (f : F → F) → Quiet (update_flow f)
  unfolding update_flow
  update_flow-Quiet f c = record { at = λ r h. h }

  pub log_entry-Quiet : (b : Bool) (x : LogEntry) → Quiet (log_entry {F = F} b x)
  unfolding log_entry
  log_entry-Quiet true x c = record { at = λ r h. h }
  log_entry-Quiet false x c = record { at = λ r h. h }

  pub gets-Quiet : {A : Type 0} (f : Run F → A) → Quiet (gets f)
  unfolding gets
  gets-Quiet f c = record { at = λ r h. h }

  pub pure-Quiet : {A : Type 0} (a : A) → Quiet {F = F} (pure a)
  pure-Quiet a c = Ensures-pure a (λ r h. h)

  pub bind-Quiet :
      {A B : Type 0} {m : Act F A} {f : A → Act F B}
      → Quiet m
      → ((a : A) → Quiet (f a))
      → Quiet (m >>= f)
  bind-Quiet p k c = Ensures-bind (p c) (λ a. k a c)

  pub when-Quiet : (b : Bool) {m : Act F (Unit {0})} → Quiet m → Quiet (when b m)
  when-Quiet b p c = Ensures-when b (λ _. p c) (λ r h. h)

  -- A condition on the context stays.
  pub Quiet-Ensures :
      {A : Type 0} {m : Act F A} (P : Context → Type 0)
      → Quiet m
      → Ensures (λ r. P r.env.context) m (λ _ r. P r.env.context) (λ _. ⊥)
  Quiet-Ensures P q = record {
    at = λ r p.
        (Ensures-weaken {P = HasContext r.env.context} (λ s h. h) (λ a s h. subst P (sym h) p)
            (λ s x. x) (q r.env.context)).at
          r refl;
  }
