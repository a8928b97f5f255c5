-- ===== src/Plugins/Hierarchy/Crashes.antt =====
-- When compiling a transition throws.
use tramli.Prelude.{
  String, ◌==◌, ◌≡◌, refl, sym, ap, ◌∙◌, ◌↔◌, inl, inr, true, false, suc, none, some, List, [], ◌∷◌,
  Bool-cases, List-cases,
}
use tramli.Plugins.Hierarchy.{
  HierarchicalStateSpec, Children, fields, HierarchicalTransitionSpec, path_to, shared, drop_shared,
  last_shared, exits, entered, compiled, crashed, compile_paths, compile_transition,
}

-- The paths start at different roots, and the second root has entry data.
abbrev pub RootEntry : List HierarchicalStateSpec → List HierarchicalStateSpec → Type 0
RootEntry from to =
    (f : HierarchicalStateSpec) × (fs : List HierarchicalStateSpec) × (t : HierarchicalStateSpec)
    × (ts : List HierarchicalStateSpec) × (from ≡ f ∷ fs)
    × (to ≡ t ∷ ts)
    × (((fields f).name == (fields t).name) ≡ false)
    × (key : String) × (keys : List String) × ((fields t).entry_produces ≡ key ∷ keys)

nothing-shared :
    (f t : HierarchicalStateSpec) (fs ts : List HierarchicalStateSpec)
    → ((fields f).name == (fields t).name) ≡ false
    → shared (f ∷ fs) (t ∷ ts) ≡ 0
unfolding shared
nothing-shared f t fs ts e = rw (e, shared) refl

first-shared :
    (f t : HierarchicalStateSpec) (fs ts : List HierarchicalStateSpec)
    → ((fields f).name == (fields t).name) ≡ true
    → shared (f ∷ fs) (t ∷ ts) ≡ suc (shared fs ts)
unfolding shared
first-shared f t fs ts e = rw (e, shared) refl

-- Where something is shared, the last state of it is there.
last_shared-some :
    (x : HierarchicalStateSpec) (as' bs : List HierarchicalStateSpec)
    → (p : HierarchicalStateSpec) × (last_shared (suc (shared as' bs)) (x ∷ bs) ≡ some p)
unfolding last_shared shared
last_shared-some x [] bs = (x, refl)
last_shared-some x (a ∷ as') [] = (x, refl)
last_shared-some x (a ∷ as') (b ∷ bs) = elim (Bool-cases ((fields a).name == (fields b).name)) [
  | inl e ↦ let (p, q) = last_shared-some b as' bs in (p, rw (e, shared) q)
  | inr e ↦ (x, rw (e, shared) refl)
]

entered-some :
    (p : HierarchicalStateSpec) (before : List HierarchicalTransitionSpec)
    (path : List HierarchicalStateSpec)
    → ¬ entered (some p) before path ≡ crashed
unfolding entered
entered-some p before [] h = cc
entered-some p before (s ∷ path) h = cc

entered-none :
    (before : List HierarchicalTransitionSpec) (s : HierarchicalStateSpec)
    (path : List HierarchicalStateSpec)
    → entered none before (s ∷ path) ≡ crashed
    → (key : String) × (keys : List String) × ((fields s).entry_produces ≡ key ∷ keys)
unfolding entered
entered-none before s path h = elim (List-cases (fields s).entry_produces) [
  | inl e ↦ absurd (not_crashed (rw (e, entered) at h))
  | inr (key, keys, e) ↦ (key, keys, e)
]
  where
    not_crashed : {xs : List HierarchicalTransitionSpec} → ¬ compiled xs ≡ crashed
    not_crashed q = cc

compile_paths-RootEntry :
    (from to : List HierarchicalStateSpec) → compile_paths from to ≡ crashed → RootEntry from to
unfolding compile_paths drop_shared last_shared
compile_paths-RootEntry [] to h = cc
compile_paths-RootEntry (f ∷ from) [] h = cc
compile_paths-RootEntry (f ∷ from) (t ∷ to) h =
    elim (Bool-cases ((fields f).name == (fields t).name)) [
      | inl e ↦
          let some_shared = first-shared f t from to e in
          let (p, q) = last_shared-some t from to in
          let n = shared (f ∷ from) (t ∷ to) in
          absurd (
            entered-some p (exits (drop_shared n (f ∷ from))) (drop_shared n (t ∷ to)) (
              sym (
                ap (λ o. entered o (exits (drop_shared n (f ∷ from))) (drop_shared n (t ∷ to)))
                  (ap (λ k. last_shared k (t ∷ to)) some_shared ∙ q))
              ∙ h))
      | inr e ↦
          let (key, keys, q) = entered-none (exits (f ∷ from)) t to (
            sym (
              ap
                (λ n.
                  entered (last_shared n (t ∷ to)) (exits (drop_shared n (f ∷ from)))
                    (drop_shared n (t ∷ to)))
                (nothing-shared f t from to e))
            ∙ h) in
          (f, from, t, to, refl, refl, e, key, keys, q)
    ]

RootEntry-crashed :
    (from to : List HierarchicalStateSpec) → RootEntry from to → compile_paths from to ≡ crashed
unfolding compile_paths entered drop_shared last_shared
RootEntry-crashed from to (f, fs, t, ts, p, q, differ, key, keys, e) =
    ap (λ z. compile_paths z to) p
    ∙ (ap (compile_paths (f ∷ fs)) q
        ∙ (ap
              (λ n.
                entered (last_shared n (t ∷ ts)) (exits (drop_shared n (f ∷ fs)))
                  (drop_shared n (t ∷ ts)))
              (nothing-shared f t fs ts differ)
            ∙ rw (e, entered) refl))

-- Compiling a transition throws exactly when both states are found, their paths start at roots of
-- different names, and the root above the target has entry data.
pub compile_transition-crashes :
    (roots : Children) (from to : String)
    → (compile_transition roots from to ≡ crashed)
      ↔ RootEntry (path_to roots from) (path_to roots to)
unfolding compile_transition
compile_transition-crashes roots from to = (
  compile_paths-RootEntry (path_to roots from) (path_to roots to),
  RootEntry-crashed (path_to roots from) (path_to roots to),
)
