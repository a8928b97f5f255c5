-- ===== src/Engine/Frame.antt =====
-- What every action of the engine leaves alone: the log of transitions only grows, and time only
-- goes on. Most actions leave the flow alone too.
pub mod Quiet
use tramli.Prelude.{◌≡◌, refl, ◌≤◌, Bool, true, false, Extends, same, arith}
use tramli.FlowError.{Error}
use tramli.Context.{Context}
use tramli.Types.{Reply, returns, throws, Callback}
use tramli.Exec.{gets}
use tramli.Exec.Ensures.{Ensures, Keeps, Post}
use tramli.Engine.{
  LogEntry, Env, Run, raise_error, now, update_context, update_flow, log_entry, reply_to, call,
}

pub record EnvFollows (o r : Env) : Type 0 where
  pub logged : Extends o.transition_log r.transition_log
  pub clock : r.clock ≡ o.clock
  pub later : o.moment ≤ r.moment

pub EnvFollows-refl : (o : Env) → EnvFollows o o
EnvFollows-refl o = record { logged = same; clock = refl; later = omega arith }

-- A condition on the flow, and an environment that follows `o`.
abbrev pub Both : {F : Type 0} → (F → Type 0) → Env → Run F → Type 0
Both P o r = P r.flow × EnvFollows o r.env

module _ {F : Type 0} (P : F → Type 0) (o : Env) where
  pub now-Keeps : Keeps (Both P o) (now {F = F})
  unfolding now
  now-Keeps = record {
    at = λ r (p, h). (p, record { logged = h.logged; clock = h.clock; later = omega arith });
  }

  pub update_context-Keeps : (f : Context → Context) → Keeps (Both P o) (update_context {F = F} f)
  unfolding update_context
  update_context-Keeps f = record {
    at = λ r (p, h). (p, record { logged = h.logged; clock = h.clock; later = h.later });
  }

  pub log_entry-Keeps : (b : Bool) (x : LogEntry) → Keeps (Both P o) (log_entry {F = F} b x)
  unfolding log_entry
  log_entry-Keeps true x = record {
    at = λ r (p, h). (p, record { logged = h.logged; clock = h.clock; later = h.later });
  }
  log_entry-Keeps false x = record { at = λ r h. h }

  reply_Post :
      {A : Type 0} (x : Reply A) (r : Run F)
      → Both P o r
      → Post (λ _ s. Both P o s) (Both P o) (reply_to x r)
  reply_Post (returns a) r h = h
  reply_Post (throws e) r h = h

  pub call-Keeps : {A : Type 0} (f : Callback A) → Keeps (Both P o) (call {F = F} f)
  unfolding call
  call-Keeps f = record {
    at = λ r (p, h).
        reply_Post (f r.env.moment r.env.context).1 _
          (p, record { logged = h.logged; clock = h.clock; later = omega arith });
  }

  pub raise_error-Keeps :
      {A : Type 0} (x : Error) → Keeps (Both P o) (raise_error {F = F} {A = A} x)
  raise_error-Keeps x = record { at = λ r h. h }

  pub update_flow-Ensures :
      (Q : F → Type 0) (X : Run F → Type 0) (f : F → F)
      → ((x : F) → P x → Q (f x))
      → Ensures (Both P o) (update_flow f) (λ _. Both Q o) X
  unfolding update_flow
  update_flow-Ensures Q X f k = record { at = λ r (p, h). (k r.flow p, h) }

  pub gets-Ensures :
      {A : Type 0} (X : Run F → Type 0) (g : F → A)
      → Ensures (Both P o) (gets (λ r. g r.flow)) (λ a. Both (λ x. P x × (g x ≡ a)) o) X
  unfolding gets
  gets-Ensures X g = record { at = λ r (p, h). ((p, refl), h) }
