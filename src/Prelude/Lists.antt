-- ===== src/Prelude/Lists.antt =====
-- Lists under native lengths and Boolean tests.
use Prim.Native.Nat.{ℕ, suc, ◌+◌}
use mathlib.Core.Path.{◌≡◌, refl, subst, ap, ◌∙◌}
use mathlib.Core.Logic.{◌⊎◌, inl, inr}
use mathlib.Core.Bool.{Bool, true, false, ◌&&◌, ◌||◌}
use mathlib.Core.Option.{Option, none, some}
use mathlib.Core.List.{List, [], ◌∷◌, ◌++◌}
use native.Mathlib.Omega.{arith}
use tramli.Prelude.Tests.{if◌then◌else◌, Bool-cases}

module _ {ℓ} {A : Type ℓ} where
  abbrev pub length : List A → ℕ
  length [] = 0
  length (x ∷ xs) = suc (length xs)

  -- `xs.find(p)`
  abbrev pub find : (A → Bool) → List A → Option A
  find p [] = none
  find p (x ∷ xs) = if p x then some x else find p xs

  -- `xs.filter(p)`
  abbrev pub filter : (A → Bool) → List A → List A
  filter p [] = []
  filter p (x ∷ xs) = let rest = filter p xs in if p x then x ∷ rest else rest

  -- `xs.some(p)`
  abbrev pub any : (A → Bool) → List A → Bool
  any p [] = false
  any p (x ∷ xs) = p x || any p xs

  -- `xs.every(p)`
  abbrev pub all : (A → Bool) → List A → Bool
  all p [] = true
  all p (x ∷ xs) = p x && all p xs

  pub length-append : (xs ys : List A) → length (xs ++ ys) ≡ length xs + length ys
  length-append [] ys = omega arith
  length-append (x ∷ xs) ys = omega (arith, length-append xs ys)

  pub List-cases : (xs : List A) → (xs ≡ []) ⊎ ((x : A) × (rest : List A) × (xs ≡ x ∷ rest))
  List-cases [] = inl refl
  List-cases (x ∷ xs) = inr (x, xs, refl)

  -- Membership by position, which proofs take apart.
  pub data Member (a : A) : List A → Type ℓ where
    here : {xs : List A} → Member a (a ∷ xs)
    there : {x : A} {xs : List A} → Member a xs → Member a (x ∷ xs)

  pub Member-append_left : {a : A} {xs : List A} (ys : List A) → Member a xs → Member a (xs ++ ys)
  Member-append_left ys here = here
  Member-append_left ys (there m) = there (Member-append_left ys m)

  pub Member-append_right : {a : A} (xs : List A) {ys : List A} → Member a ys → Member a (xs ++ ys)
  Member-append_right [] m = m
  Member-append_right (x ∷ xs) m = there (Member-append_right xs m)

  pub Member-append_cases :
      {a : A} (xs : List A) {ys : List A} → Member a (xs ++ ys) → Member a xs ⊎ Member a ys
  Member-append_cases [] m = inr m
  Member-append_cases (x ∷ xs) here = inl here
  Member-append_cases (x ∷ xs) (there m) = elim (Member-append_cases xs m) [
    | inl l ↦ inl (there l)
    | inr r ↦ inr r
  ]

  abbrev pub All {κ} : (A → Type κ) → List A → Type κ
  All P [] = Unit
  All P (x ∷ xs) = P x × All P xs

  pub All-append {κ} : (P : A → Type κ) (xs ys : List A) → All P xs → All P ys → All P (xs ++ ys)
  All-append P [] ys _ k = k
  All-append P (x ∷ xs) ys (h, hs) k = (h, All-append P xs ys hs k)

  pub All-Member {κ} : (P : A → Type κ) {a : A} {xs : List A} → Member a xs → All P xs → P a
  All-Member P here h = h.0
  All-Member P (there m) h = All-Member P m h.1

  pub find-eq-some :
      (p : A → Bool) (xs : List A) {x : A} → find p xs ≡ some x → Member x xs × (p x ≡ true)
  find-eq-some p [] h = cc
  find-eq-some p (y ∷ xs) {x} h = elim (Bool-cases (p y)) [
    | inl e ↦
        let same : y ≡ x = ground arith in (subst (λ z. Member z (y ∷ xs)) same here, rw same at e)
    | inr e ↦ let (m, q) = find-eq-some p xs (rw e at h) in (there m, q)
  ]

  pub Member-cons : {x y : A} {ys : List A} → Member x (y ∷ ys) → (y ≡ x) ⊎ Member x ys
  Member-cons here = inl refl
  Member-cons (there m) = inr m

  pub Member-nil : {x : A} → ¬ Member x []
  Member-nil m = elim m [ ]

  pub Member-filter :
      (p : A → Bool) (xs : List A) {x : A} → Member x (filter p xs) → Member x xs × (p x ≡ true)
  Member-filter p [] m = absurd (Member-nil m)
  Member-filter p (y ∷ xs) {x} m = elim (Bool-cases (p y)) [
    | inl e ↦ elim (Member-cons (rw e at m)) [
      | inl q ↦ (subst (λ z. Member z (y ∷ xs)) q here, rw q at e)
      | inr k ↦ let (l, q) = Member-filter p xs k in (there l, q)
    ]
    | inr e ↦ let (k, q) = Member-filter p xs (rw e at m) in (there k, q)
  ]

  pub filter-Member :
      (p : A → Bool) (xs : List A) {x : A} → Member x xs → p x ≡ true → Member x (filter p xs)
  filter-Member p [] m h = absurd (Member-nil m)
  filter-Member p (y ∷ xs) {x} m h = elim (Member-cons m) [
    | inl q ↦ subst (λ z. Member z (filter p (y ∷ xs))) q (rw (ap p q ∙ h) here)
    | inr n ↦ elim (Bool-cases (p y)) [
      | inl e ↦ rw e (there (filter-Member p xs n h))
      | inr e ↦ rw e (filter-Member p xs n h)
    ]
  ]

  pub filter-nil :
      (p : A → Bool) (xs : List A) {x : A} → filter p xs ≡ [] → Member x xs → p x ≡ false
  filter-nil p xs {x} h m = elim (Bool-cases (p x)) [
    | inl e ↦ absurd (Member-nil (subst (Member x) h (filter-Member p xs m e)))
    | inr e ↦ e
  ]

  pub filter-none :
      (p : A → Bool) (xs : List A) → ((x : A) → Member x xs → p x ≡ false) → filter p xs ≡ []
  filter-none p [] h = refl
  filter-none p (y ∷ xs) h = rw (h y here) (filter-none p xs (λ x m. h x (there m)))

  -- `ys` is `xs` with more at the end.
  pub data Extends (xs : List A) : List A → Type ℓ where
    same : Extends xs xs
    more : {ys : List A} → Extends xs ys → (y : A) → Extends xs (ys ++ y ∷ [])

  pub Extends-trans : {xs ys zs : List A} → Extends xs ys → Extends ys zs → Extends xs zs
  Extends-trans p same = p
  Extends-trans p (more q y) = more (Extends-trans p q) y

  -- The elements before a place of a list, and the element at it.
  pub data At : List A → A → List A → Type ℓ where
    at_here : {x : A} {xs : List A} → At [] x (x ∷ xs)
    at_there :
        {before : List A} {x y : A} {xs : List A} → At before x xs → At (y ∷ before) x (y ∷ xs)

  pub append-eq-nil : (xs ys : List A) → xs ++ ys ≡ [] → (xs ≡ []) × (ys ≡ [])
  append-eq-nil [] ys h = (refl, h)
  append-eq-nil (x ∷ xs) ys h = cc
