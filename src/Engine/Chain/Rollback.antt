-- ===== src/Engine/Chain/Rollback.antt =====
-- A step that fails leaves no data behind.
use tramli.Prelude.{◌≡◌, refl, ◌∙◌, ap, Bool, true, false, List, [], Dict, insert_all}
use tramli.Prelude.Maps.Distinct.{IsMap, insert_all-nil}
use tramli.FlowError.{Thrown}
use tramli.Context.{Value, Context, snapshot, restore_from}
use tramli.Types.{Transition}
use tramli.FlowInstance.{FlowInstance}
use tramli.Exec.{done}
use tramli.Exec.Ensures.{
  Ensures, Ensures-pure, Ensures-gets, Ensures-bind, Ensures-catch, Ensures-weaken, Ensures-given,
  returns-of-Ensures, Ensures-any,
}
use tramli.Engine.{Engine, Run, update_context}
use tramli.Engine.Frame.Quiet.{Quiet-Ensures}
use tramli.Engine.Steps.Quiet.{current_state-Quiet}
use tramli.Engine.Errors.Quiet.{handle_error-Quiet}
use tramli.Engine.Chain.{recover, try_step}

-- The data are those of the backup, copied into the emptied map.
abbrev IsRestored : Dict Value → Context → Type 0
IsRestored backup c = c.attributes ≡ insert_all backup []

pub update_context-restores :
    {F : Type 0} (backup : Dict Value)
    → Ensures
        (λ (_ : Run F). Unit {0})
        (update_context (restore_from backup))
        (λ _ r. IsRestored backup r.env.context)
        (λ _. ⊥)
unfolding update_context restore_from
update_context-restores backup = record { at = λ r _. refl }

module _ (e : Engine) {D F : Type 0} where
  recover-Ensures :
      (backup : Dict Value) (x : Thrown)
      → Ensures
          (λ (_ : Run (FlowInstance D F)). Unit {0})
          (recover e backup x)
          (λ made r. (made ≡ false) × IsRestored backup r.env.context)
          (λ _. ⊥)
  unfolding recover
  recover-Ensures backup x = Ensures-bind (update_context-restores backup) λ _.
      Ensures-bind (Quiet-Ensures (IsRestored backup) current_state-Quiet) λ from.
        Ensures-bind (Quiet-Ensures (IsRestored backup) (handle_error-Quiet e from _))
          λ _. Ensures-pure false (λ r h. (refl, h))

  -- A step of the chain returns, also where the user's code throws, and a step that was not made
  -- leaves the data of the context as they were before it.
  pub try_step-restores :
      (t : Transition D) (ts : List (Transition D)) (r : Run (FlowInstance D F))
      → IsMap r.env.context.attributes
      → (made : Bool) × (s : Run (FlowInstance D F)) × (try_step e t ts r ≡ done made s)
        × (made ≡ false → s.env.context.attributes ≡ r.env.context.attributes)
  try_step-restores t ts r h = returns-of-Ensures stepped r refl
    where
      backup : Dict Value
      backup = r.env.context.attributes

      stepped :
          Ensures
            (λ s. s ≡ r)
            (try_step e t ts)
            (λ made s. made ≡ false → s.env.context.attributes ≡ backup)
            (λ _. ⊥)
      stepped =
          unfold try_step snapshot in
          (Ensures-bind
            (Ensures-gets {Q = λ b _. b ≡ backup} _ (λ s q. ap (λ z. z.env.context.attributes) q))
            λ b.
              Ensures-given (λ s q. q)
                λ same.
                  Ensures-catch {Y = λ _. Unit {0}}
                    (Ensures-bind {R = λ _ _. Unit {0}} (Ensures-any _)
                      λ _. Ensures-pure true (λ s _ q. cc))
                    (λ x.
                      Ensures-weaken (λ s u. u)
                        (λ made s (_, k) q.
                          k ∙ ap (λ z. insert_all z []) same ∙ insert_all-nil backup h)
                        (λ s z. z) (recover-Ensures b x)))
