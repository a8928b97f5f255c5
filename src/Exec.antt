-- ===== src/Exec.antt =====
-- Methods that mutate their objects and may throw. What was written before a throw stays written, so
-- the state comes back beside the thrown value too.
pub mod Ensures
use tramli.Prelude.{Bool, true, false, if◌then◌else◌}
use tramli.FlowError.{Thrown}

pub data Outcome (S A : Type 0) : Type 0 where
  done : A → S → Outcome S A
  raised : Thrown → S → Outcome S A

abbrev pub Exec : Type 0 → Type 0 → Type 0
Exec S A = S → Outcome S A

abbrev pub final : {S A : Type 0} → Outcome S A → S
final (done a s) = s
final (raised e s) = s

module _ {S A : Type 0} where
  unfoldable pub pure : A → Exec S A
  pure a s = done a s

  -- `throw e`
  unfoldable pub raise : Thrown → Exec S A
  raise e s = raised e s

  unfoldable pub gets : (S → A) → Exec S A
  gets f s = done (f s) s

  abbrev catch_cases : Outcome S A → (Thrown → Exec S A) → Outcome S A
  catch_cases (done a s) h = done a s
  catch_cases (raised e s) h = h e s

  -- `try { m } catch (e) { h(e) }`
  unfoldable pub catch : Exec S A → (Thrown → Exec S A) → Exec S A
  catch m h s = catch_cases (m s) h

unfoldable pub modify : {S : Type 0} → (S → S) → Exec S (Unit {0})
modify f s = done tt (f s)

module _ {S A B : Type 0} where
  abbrev continue : Outcome S A → (A → Exec S B) → Outcome S B
  continue (done a s) f = f a s
  continue (raised e s) f = raised e s

  infixl 5 ◌>>=◌ ◌>>◌
  unfoldable pub ◌>>=◌ : Exec S A → (A → Exec S B) → Exec S B
  unfolding pure raise gets modify
  ◌>>=◌ m f s = continue (m s) f

  abbrev pub ◌>>◌ : Exec S A → Exec S B → Exec S B
  m >> n = m >>= λ _. n

-- `if (b) m`
abbrev pub when : {S : Type 0} → Bool → Exec S (Unit {0}) → Exec S (Unit {0})
when b m = if b then m else pure tt
