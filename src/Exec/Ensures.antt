-- ===== src/Exec/Ensures.antt =====
-- What holds after an action, by one rule for each way to build one.
use tramli.Prelude.{Option, none, some, Bool, true, false, if◌then◌else◌, ◌≡◌, refl}
use tramli.FlowError.{Thrown}
use tramli.Exec.{
  Outcome, done, raised, Exec, pure, raise, gets, modify, catch, catch_cases, continue, ◌>>=◌, when,
}

-- `Q` where the outcome is a value, `X` where it is a throw.
abbrev pub Post : {S A : Type 0} → (A → S → Type 0) → (S → Type 0) → Outcome S A → Type 0
Post Q X (done a s) = Q a s
Post Q X (raised e s) = X s

pub record Ensures {S A : Type 0} (P : S → Type 0) (m : Exec S A) (Q : A → S → Type 0)
    (X : S → Type 0) : Type 0 where
  pub at : (s : S) → P s → Post Q X (m s)

pub Post-if :
    {S A : Type 0} (Q : A → S → Type 0) (X : S → Type 0) (b : Bool) (m n : Outcome S A)
    → (b ≡ true → Post Q X m)
    → (b ≡ false → Post Q X n)
    → Post Q X (if b then m else n)
Post-if Q X true m n k l = k refl
Post-if Q X false m n k l = l refl

pub Post-elim :
    {S A B : Type 0} (Q : A → S → Type 0) (X : S → Type 0) (o : Option B) (m : Outcome S A)
    (f : B → Outcome S A)
    → (o ≡ none → Post Q X m)
    → ((b : B) → o ≡ some b → Post Q X (f b))
    → Post Q X (elim o [ none ↦ m | some b ↦ f b ])
Post-elim Q X none m f k l = k refl
Post-elim Q X (some b) m f k l = l b refl

module _ {S A : Type 0} {X : S → Type 0} {Q : A → S → Type 0} where
  catch_Post :
      {Y : S → Type 0} (o : Outcome S A) (h : Thrown → Exec S A)
      → Post Q Y o
      → ((e : Thrown) → Ensures Y (h e) Q X)
      → Post Q X (catch_cases o h)
  catch_Post (done a s) h p k = p
  catch_Post (raised e s) h p k = (k e).at s p

  weaken_Post :
      {Q' : A → S → Type 0} {X' : S → Type 0} (o : Outcome S A)
      → ((a : A) (s : S) → Q' a s → Q a s)
      → ((s : S) → X' s → X s)
      → Post Q' X' o
      → Post Q X o
  weaken_Post (done a s) q x p = q a s p
  weaken_Post (raised e s) q x p = x s p

module _ {S A B : Type 0} {X : S → Type 0} {R : A → S → Type 0} {Q : B → S → Type 0} where
  bind_Post :
      (o : Outcome S A) (f : A → Exec S B)
      → Post R X o
      → ((a : A) → Ensures (R a) (f a) Q X)
      → Post Q X (continue o f)
  bind_Post (done a s) f p k = (k a).at s p
  bind_Post (raised e s) f p k = p

module _ {S A : Type 0} {P X : S → Type 0} {Q : A → S → Type 0} where
  pub Ensures-pure : (a : A) → ((s : S) → P s → Q a s) → Ensures P (pure a) Q X
  unfolding pure
  Ensures-pure a k = record { at = k }

  pub Ensures-raise : (e : Thrown) → ((s : S) → P s → X s) → Ensures P (raise e) Q X
  unfolding raise
  Ensures-raise e k = record { at = k }

  pub Ensures-gets : (f : S → A) → ((s : S) → P s → Q (f s) s) → Ensures P (gets f) Q X
  unfolding gets
  Ensures-gets f k = record { at = k }

  pub Ensures-if :
      (b : Bool) {m n : Exec S A}
      → (b ≡ true → Ensures P m Q X)
      → (b ≡ false → Ensures P n Q X)
      → Ensures P (if b then m else n) Q X
  Ensures-if true m n = m refl
  Ensures-if false m n = n refl

  -- A condition that does not depend on the state.
  pub Ensures-given :
      {m : Exec S A} {G : Type 0} → ((s : S) → P s → G) → (G → Ensures P m Q X) → Ensures P m Q X
  Ensures-given g k = record { at = λ s p. (k (g s p)).at s p }

  pub Ensures-catch :
      {Y : S → Type 0} {m : Exec S A} {h : Thrown → Exec S A}
      → Ensures P m Q Y
      → ((e : Thrown) → Ensures Y (h e) Q X)
      → Ensures P (catch m h) Q X
  unfolding catch
  Ensures-catch {m} {h} p k = record { at = λ s q. catch_Post (m s) h (p.at s q) k }

  pub Ensures-weaken :
      {P' X' : S → Type 0} {Q' : A → S → Type 0} {m : Exec S A}
      → ((s : S) → P s → P' s)
      → ((a : A) (s : S) → Q' a s → Q a s)
      → ((s : S) → X' s → X s)
      → Ensures P' m Q' X'
      → Ensures P m Q X
  Ensures-weaken {m} p q x k = record { at = λ s h. weaken_Post (m s) q x (k.at s (p s h)) }

module _ {S A B : Type 0} {P X : S → Type 0} {R : A → S → Type 0} {Q : B → S → Type 0} where
  pub Ensures-bind :
      {m : Exec S A} {f : A → Exec S B}
      → Ensures P m R X
      → ((a : A) → Ensures (R a) (f a) Q X)
      → Ensures P (m >>= f) Q X
  unfolding ◌>>=◌
  Ensures-bind {m} {f} p k = record { at = λ s h. bind_Post (m s) f (p.at s h) k }

module _ {S : Type 0} {P X : S → Type 0} {Q : Unit {0} → S → Type 0} where
  pub Ensures-modify : (f : S → S) → ((s : S) → P s → Q tt (f s)) → Ensures P (modify f) Q X
  unfolding modify
  Ensures-modify f k = record { at = k }

  pub Ensures-when :
      (b : Bool) {m : Exec S (Unit {0})}
      → (b ≡ true → Ensures P m Q X)
      → ((s : S) → P s → Q tt s)
      → Ensures P (when b m) Q X
  Ensures-when b m k = Ensures-if b m (λ _. Ensures-pure tt k)

-- An action that keeps a condition, whatever its outcome.
abbrev pub Keeps : {S A : Type 0} → (S → Type 0) → Exec S A → Type 0
Keeps P m = Ensures P m (λ _ s. P s) P

-- An action that never throws returns.
pub returns-of-Ensures :
    {S A : Type 0} {P : S → Type 0} {Q : A → S → Type 0} {m : Exec S A}
    → Ensures P m Q (λ _. ⊥)
    → (s : S) → P s
    → (a : A) × (t : S) × (m s ≡ done a t) × Q a t
returns-of-Ensures {S} {A} {Q} {m} k s p = by_outcome (m s) (k.at s p)
  where
    by_outcome : (o : Outcome S A) → Post Q (λ _. ⊥) o → (a : A) × (t : S) × (o ≡ done a t) × Q a t
    by_outcome (done a t) q = (a, t, refl, q)
    by_outcome (raised x t) q = absurd q

-- Of any action nothing is known.
pub Ensures-any :
    {S A : Type 0} {P : S → Type 0} (m : Exec S A) → Ensures P m (λ _ _. Unit {0}) (λ _. Unit {0})
Ensures-any {S} {A} m = record { at = λ s _. nothing (m s) }
  where
    nothing : (o : Outcome S A) → Post (λ _ _. Unit {0}) (λ _. Unit {0}) o
    nothing (done a s) = tt
    nothing (raised x s) = tt
