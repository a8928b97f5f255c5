-- ===== src/Builder/Nesting/Chains.antt =====
-- What the checks of nesting promise, in terms of chains of sub-flows.
use tramli.Prelude.{
  String, ◌≡◌, refl, sym, ap, ◌∙◌, subst, ◌↔◌, inl, inr, ℕ, zero, suc, ◌+◌, ◌≤◌, ltb, Bool, true,
  false, if◌then◌else◌, Option, none, some, List, [], ◌∷◌, length, contains, add, arith,
  append-eq-nil, Bool-cases, Member, here, there, Member-cons, Member-nil,
}
use tramli.Types.{Transition, is_sub_flow}
use tramli.FlowDefinition.{FlowDefinition, SubDefinition}
use tramli.Pipeline.Available.{contains-Member, Member-contains}
use tramli.Builder.Nesting.{
  sub_flow_errors, over_sub_flows, depth_message, check_sub_flow_nesting_depth,
  check_sub_flow_circular_ref,
}

-- A sub-flow of a definition.
abbrev pub SubFlow : {E : Type 0} → FlowDefinition E → E → Type 0
SubFlow {E} d sub =
    (t : Transition E) × Member t d.transitions
    × (is_sub_flow t.type ≡ true)
    × (t.sub_flow_definition ≡ some sub)

-- The names along a chain of definitions, each a sub-flow of the one before it.
pub data Chain : (n : ℕ) → FlowDefinition (SubDefinition n) → List String → Type 0 where
  last : {n : ℕ} {d : FlowDefinition (SubDefinition n)} → Chain n d (d.name ∷ [])
  inside :
      {n : ℕ} {d : FlowDefinition (SubDefinition (suc n))} {sub : FlowDefinition (SubDefinition n)}
      {names : List String}
      → SubFlow d sub
      → Chain n sub names
      → Chain (suc n) d (d.name ∷ names)

over_sub_flows-nil :
    {E : Type 0} (check : E → List String) (ts : List (Transition E)) {t : Transition E} {sub : E}
    → over_sub_flows check ts ≡ []
    → Member t ts
    → is_sub_flow t.type ≡ true
    → t.sub_flow_definition ≡ some sub
    → check sub ≡ []
unfolding over_sub_flows sub_flow_errors
over_sub_flows-nil check [] h m is_sub e = absurd (Member-nil m)
over_sub_flows-nil {E} check (u ∷ ts) {t} {sub} h m is_sub e =
    let (first, later) =
      append-eq-nil (sub_flow_errors check (is_sub_flow u.type) u.sub_flow_definition)
        (over_sub_flows check ts) h in
    elim (Member-cons m) [
      | inl q ↦
          sym (ap (λ b. sub_flow_errors check b (some sub)) is_sub)
          ∙ (sym (ap (sub_flow_errors check (is_sub_flow t.type)) e)
              ∙ subst (λ z. sub_flow_errors check (is_sub_flow z.type) z.sub_flow_definition ≡ []) q
                  first)
      | inr n ↦ over_sub_flows-nil check ts later n is_sub e
    ]

nil-over_sub_flows :
    {E : Type 0} (check : E → List String) (ts : List (Transition E))
    → ((t : Transition E) (sub : E)
        → Member t ts
        → is_sub_flow t.type ≡ true
        → t.sub_flow_definition ≡ some sub
        → check sub ≡ [])
    → over_sub_flows check ts ≡ []
unfolding over_sub_flows sub_flow_errors
nil-over_sub_flows check [] h = refl
nil-over_sub_flows {E} check (u ∷ ts) h =
    rw (first (is_sub_flow u.type) u.sub_flow_definition refl refl)
      (nil-over_sub_flows check ts (λ t sub m. h t sub (there m)))
  where
    first :
        (b : Bool) (o : Option E)
        → is_sub_flow u.type ≡ b
        → u.sub_flow_definition ≡ o
        → sub_flow_errors check b o ≡ []
    first b none p q = refl
    first true (some sub) p q = h u sub here p q
    first false (some sub) p q = refl

unless-nil :
    (b : Bool) (m : String) (rest : List String)
    → (if b then m ∷ [] else rest) ≡ []
    → (b ≡ false) × (rest ≡ [])
unless-nil true m rest h = cc
unless-nil false m rest h = (refl, h)

nil-unless :
    {b : Bool} (m : String) {rest : List String}
    → b ≡ false
    → rest ≡ []
    → (if b then m ∷ [] else rest) ≡ []
nil-unless m e h = rw (e, h) refl

not-ltb : (m n : ℕ) → ltb m n ≡ false → n ≤ m
not-ltb m n h = ground arith

ltb-not : (m n : ℕ) → n ≤ m → ltb m n ≡ false
ltb-not m n h = ground arith

abbrev pub Shallow : ℕ → (n : ℕ) → FlowDefinition (SubDefinition n) → Type 0
Shallow depth n d = (names : List String) → Chain n d names → depth + length names ≤ 4

shallow :
    (n : ℕ) (d : FlowDefinition (SubDefinition n)) (depth : ℕ)
    → check_sub_flow_nesting_depth n d depth ≡ []
    → Shallow depth n d
unfolding check_sub_flow_nesting_depth
shallow zero d depth h names last =
    omega (arith, not-ltb 3 depth (unless-nil (ltb 3 depth) _ _ h).0)
shallow (suc n) d depth h names last =
    omega (arith, not-ltb 3 depth (unless-nil (ltb 3 depth) _ _ h).0)
shallow (suc n) d depth h names (inside {sub} {names = inner} (t, m, is_sub, e) c) =
    let below =
      shallow n sub (suc depth)
        (over_sub_flows-nil (λ s. check_sub_flow_nesting_depth n s (suc depth)) d.transitions
          (unless-nil (ltb 3 depth) _ _ h).1 m is_sub e)
        inner c in
    omega (arith, below)

nil-Shallow :
    (n : ℕ) (d : FlowDefinition (SubDefinition n)) (depth : ℕ)
    → Shallow depth n d
    → check_sub_flow_nesting_depth n d depth ≡ []
unfolding check_sub_flow_nesting_depth
nil-Shallow zero d depth h =
    nil-unless (depth_message d.name) (ltb-not 3 depth (omega (arith, h (d.name ∷ []) last))) refl
nil-Shallow (suc n) d depth h =
    nil-unless (depth_message d.name) (ltb-not 3 depth (omega (arith, h (d.name ∷ []) last))) (
      nil-over_sub_flows (λ s. check_sub_flow_nesting_depth n s (suc depth)) d.transitions
        λ t sub m is_sub e. nil-Shallow n sub (suc depth) λ names c.
          let below = h (d.name ∷ names) (inside (t, m, is_sub, e) c) in omega (arith, below))

-- The check of the nesting depth reports nothing exactly when no chain of sub-flows, each inside the
-- one before it, has more than four definitions: the flow itself and three below it.
pub check_sub_flow_nesting_depth_lem :
    (n : ℕ) (d : FlowDefinition (SubDefinition n))
    → (check_sub_flow_nesting_depth n d 0 ≡ [])
      ↔ ((names : List String) → Chain n d names → length names ≤ 4)
check_sub_flow_nesting_depth_lem n d = (
  λ h names c. let p = shallow n d 0 h names c in omega (arith, p),
  λ h. nil-Shallow n d 0 (λ names c. let p = h names c in omega (arith, p)),
)

-- No name is among those before it.
abbrev pub NoRepeat : List String → List String → Type 0
NoRepeat before [] = Unit {0}
NoRepeat before (x ∷ xs) = ¬ Member x before × NoRepeat (add x before) xs

not-contains : {x : String} {xs : List String} → contains x xs ≡ false → ¬ Member x xs
not-contains h m = false_is_not_true (sym h ∙ Member-contains m)
  where
    false_is_not_true : ¬ false ≡ true
    false_is_not_true q = cc

contains-not : (x : String) (xs : List String) → ¬ Member x xs → contains x xs ≡ false
contains-not x xs h = elim (Bool-cases (contains x xs)) [
  | inl e ↦ absurd (h (contains-Member x xs e))
  | inr e ↦ e
]

-- Every chain of definitions goes on without a name that came before.
abbrev pub Unrepeated : List String → (n : ℕ) → FlowDefinition (SubDefinition n) → Type 0
Unrepeated before n d = (names : List String) → Chain n d names → NoRepeat before names

unrepeated :
    (n : ℕ) (d : FlowDefinition (SubDefinition n)) (visited : List String)
    → check_sub_flow_circular_ref n d visited ≡ []
    → Unrepeated visited n d
unfolding check_sub_flow_circular_ref
unrepeated zero d visited h names last =
    (not-contains (unless-nil (contains d.name visited) _ _ h).0, tt)
unrepeated (suc n) d visited h names last =
    (not-contains (unless-nil (contains d.name visited) _ _ h).0, tt)
unrepeated (suc n) d visited h names (inside {sub} {names = inner} (t, m, is_sub, e) c) = (
  not-contains (unless-nil (contains d.name visited) _ _ h).0,
  unrepeated n sub (add d.name visited)
      (over_sub_flows-nil (λ s. check_sub_flow_circular_ref n s (add d.name visited)) d.transitions
        (unless-nil (contains d.name visited) _ _ h).1 m is_sub e)
      inner c,
)

nil-Unrepeated :
    (n : ℕ) (d : FlowDefinition (SubDefinition n)) (visited : List String)
    → Unrepeated visited n d
    → check_sub_flow_circular_ref n d visited ≡ []
unfolding check_sub_flow_circular_ref
nil-Unrepeated zero d visited h =
    nil-unless _ (contains-not d.name visited (h (d.name ∷ []) last).0) refl
nil-Unrepeated (suc n) d visited h =
    nil-unless _ (contains-not d.name visited (h (d.name ∷ []) last).0) (
      nil-over_sub_flows (λ s. check_sub_flow_circular_ref n s (add d.name visited)) d.transitions
        λ t sub m is_sub e.
          nil-Unrepeated n sub (add d.name visited)
            λ names c. (h (d.name ∷ names) (inside (t, m, is_sub, e) c)).1)

-- The check of circular references reports nothing exactly when along no chain of sub-flows, each
-- inside the one before it, a flow has the name of one before it.
pub check_sub_flow_circular_ref_lem :
    (n : ℕ) (d : FlowDefinition (SubDefinition n))
    → (check_sub_flow_circular_ref n d [] ≡ []) ↔ Unrepeated [] n d
check_sub_flow_circular_ref_lem n d = (unrepeated n d [], nil-Unrepeated n d [])
