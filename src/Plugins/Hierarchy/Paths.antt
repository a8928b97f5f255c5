-- ===== src/Plugins/Hierarchy/Paths.antt =====
-- What `pathTo` finds.
use tramli.Prelude.{
  String, ◌==◌, eq_iff, ◌≡◌, refl, sym, ◌∙◌, ◌⊎◌, inl, inr, true, false, Option, none, some, get_or,
  List, [], ◌∷◌, Bool-cases,
}
use tramli.Plugins.Hierarchy.{
  StateFields, HierarchicalStateSpec, spec, Children, end, ◌⨾◌, fields, children, longer, or_path,
  find_path, find_among, path_to,
}

pub data Among : HierarchicalStateSpec → Children → Type 0 where
  first : {s : HierarchicalStateSpec} {ss : Children} → Among s (s ⨾ ss)
  later : {s t : HierarchicalStateSpec} {ss : Children} → Among s ss → Among s (t ⨾ ss)

-- A way down from one of the states to a state of that name, each a child of the one before it.
pub data Descends : Children → String → List HierarchicalStateSpec → Type 0 where
  at :
      {roots : Children} {s : HierarchicalStateSpec} {name : String}
      → Among s roots
      → (fields s).name ≡ name
      → Descends roots name (s ∷ [])
  below :
      {roots : Children} {s : HierarchicalStateSpec} {name : String}
      {path : List HierarchicalStateSpec}
      → Among s roots
      → Descends (children s) name path
      → Descends roots name (s ∷ path)

-- The search gives such a way, or there is none.
abbrev pub Searched : Children → String → Option (List HierarchicalStateSpec) → Type 0
Searched roots name none = (path : List HierarchicalStateSpec) → ¬ Descends roots name path
Searched roots name (some path) = Descends roots name path

Descends-later :
    {t : HierarchicalStateSpec} {ss : Children} {name : String} {path : List HierarchicalStateSpec}
    → Descends ss name path
    → Descends (t ⨾ ss) name path
Descends-later (at m e) = at (later m) e
Descends-later (below m d) = below (later m) d

no_state : {s : HierarchicalStateSpec} → ¬ Among s end
no_state m = elim m [ ]

Descends-end : {name : String} {path : List HierarchicalStateSpec} → ¬ Descends end name path
Descends-end (at m e) = no_state m
Descends-end (below m d) = no_state m

Descends-wider :
    {s : HierarchicalStateSpec} {ss : Children} {name : String} {path : List HierarchicalStateSpec}
    → Descends (s ⨾ end) name path
    → Descends (s ⨾ ss) name path
Descends-wider (at first e) = at first e
Descends-wider (at (later m) e) = absurd (no_state m)
Descends-wider (below first d) = below first d
Descends-wider (below (later m) d) = absurd (no_state m)

-- Nothing below the state, and it has another name.
nothing-found :
    (f : StateFields) (cs : Children) (name : String)
    → ¬ f.name ≡ name
    → Searched cs name none
    → Searched (spec f cs ⨾ end) name none
nothing-found f cs name other h path (at first e) = other e
nothing-found f cs name other h path (at (later m) e) = no_state m
nothing-found f cs name other h path (below {path = inner} first d) = h inner d
nothing-found f cs name other h path (below (later m) d) = no_state m

longer-Searched :
    (f : StateFields) (cs : Children) (name : String) (o : Option (List HierarchicalStateSpec))
    → ¬ f.name ≡ name
    → Searched cs name o
    → Searched (spec f cs ⨾ end) name (longer (spec f cs) o)
longer-Searched f cs name none other h = nothing-found f cs name other h
longer-Searched f cs name (some path) other h = below first h

nothing-among :
    (s : HierarchicalStateSpec) (ss : Children) (name : String)
    → Searched (s ⨾ end) name none
    → Searched ss name none
    → Searched (s ⨾ ss) name none
nothing-among s ss name h k path (at first e) = h path (at first e)
nothing-among s ss name h k path (at (later m) e) = k path (at m e)
nothing-among s ss name h k path (below first d) = h path (below first d)
nothing-among s ss name h k path (below (later m) d) = k path (below m d)

or_path-Searched :
    (s : HierarchicalStateSpec) (ss : Children) (name : String)
    (o p : Option (List HierarchicalStateSpec))
    → Searched (s ⨾ end) name o
    → Searched ss name p
    → Searched (s ⨾ ss) name (or_path o p)
or_path-Searched s ss name (some path) p h k = Descends-wider h
or_path-Searched s ss name none (some path) h k = Descends-later k
or_path-Searched s ss name none none h k = nothing-among s ss name h k

differs : {a b : String} → (a == b) ≡ false → ¬ a ≡ b
differs {a} {b} e q = true_is_not_false (sym ((eq_iff a b).1 q) ∙ e)
  where
    true_is_not_false : ¬ true ≡ false
    true_is_not_false p = cc

mutual
  unfolding find_path

  find_path-Searched :
      (s : HierarchicalStateSpec) (name : String) → Searched (s ⨾ end) name (find_path s name)
  find_path-Searched (spec f cs) name =
      let below_it = find_among-Searched cs name in
      elim (Bool-cases (f.name == name)) [
        | inl e ↦ rw (e, find_path) (at first ((eq_iff f.name name).0 e))
        | inr e ↦
            rw (e, find_path) (longer-Searched f cs name (find_among cs name) (differs e) below_it)
      ]

  find_among-Searched :
      (roots : Children) (name : String) → Searched roots name (find_among roots name)
  find_among-Searched end name = λ path d. Descends-end d
  find_among-Searched (s ⨾ ss) name =
      or_path-Searched s ss name (find_path s name) (find_among ss name) (find_path-Searched s name)
        (find_among-Searched ss name)

-- The path to a state is a way down from a root to a state of that name, each state on it a child of
-- the one before; it is empty exactly where there is no such way.
pub path_to-Descends :
    (roots : Children) (name : String)
    → Descends roots name (path_to roots name)
      ⊎ ((path_to roots name ≡ [])
          × ((path : List HierarchicalStateSpec) → ¬ Descends roots name path))
unfolding path_to
path_to-Descends roots name = by_search (find_among roots name) (find_among-Searched roots name)
  where
    by_search :
        (o : Option (List HierarchicalStateSpec))
        → Searched roots name o
        → Descends roots name (get_or [] o)
          ⊎ ((get_or [] o ≡ [])
              × ((path : List HierarchicalStateSpec) → ¬ Descends roots name path))
    by_search none h = inr (refl, h)
    by_search (some path) h = inl h
