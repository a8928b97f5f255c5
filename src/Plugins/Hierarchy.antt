-- ===== src/Plugins/Hierarchy.antt =====
-- Entry and exit transitions of states inside states
-- (lang/ts-plugins/src/hierarchy/entry-exit-compiler.ts, types.ts), without `synthesizeBubbling`.
pub mod Paths
pub mod Crashes
use tramli.Prelude.{
  String, ◌<>◌, ◌==◌, ℕ, zero, suc, Bool, true, false, if◌then◌else◌, Option, none, some, get_or,
  List, [], ◌∷◌, ◌++◌,
}

-- A state but for its children.
pub record StateFields : Type 0 where
  pub name : String
  pub initial : Bool
  pub terminal : Bool
  pub entry_produces : List String
  pub exit_produces : List String

infixr 67 ◌⨾◌
mutual
  pub data HierarchicalStateSpec : Type 0 where
    spec : StateFields → Children → HierarchicalStateSpec

  pub data Children : Type 0 where
    end : Children
    ◌⨾◌ : HierarchicalStateSpec → Children → Children

abbrev pub fields : HierarchicalStateSpec → StateFields
fields (spec f cs) = f

abbrev pub children : HierarchicalStateSpec → Children
children (spec f cs) = cs

pub record HierarchicalTransitionSpec : Type 0 where
  pub from : String
  pub to : String
  pub trigger : String
  pub requires : List String
  pub produces : List String

abbrev pub longer :
    HierarchicalStateSpec
    → Option (List HierarchicalStateSpec)
    → Option (List HierarchicalStateSpec)
longer s none = none
longer s (some path) = some (s ∷ path)

abbrev pub or_path :
    Option (List HierarchicalStateSpec)
    → Option (List HierarchicalStateSpec)
    → Option (List HierarchicalStateSpec)
or_path none other = other
or_path (some path) other = some path

-- The path to the state of that name, from the node itself or from one of the roots.
unfoldable mutual
  pub find_path : HierarchicalStateSpec → String → Option (List HierarchicalStateSpec)
  find_path (spec f cs) name =
      let below = find_among cs name in
      if f.name == name then some (spec f cs ∷ []) else longer (spec f cs) below

  pub find_among : Children → String → Option (List HierarchicalStateSpec)
  find_among end name = none
  find_among (s ⨾ ss) name = or_path (find_path s name) (find_among ss name)

unfoldable pub path_to : Children → String → List HierarchicalStateSpec
path_to roots name = get_or [] (find_among roots name)

-- How many states the paths share at their start: `lcaIndex` and one more.
unfoldable pub shared : List HierarchicalStateSpec → List HierarchicalStateSpec → ℕ
shared [] bs = 0
shared (a ∷ as') [] = 0
shared (a ∷ as') (b ∷ bs) =
    let later = shared as' bs in if (fields a).name == (fields b).name then suc later else 0

unfoldable pub drop_shared : ℕ → List HierarchicalStateSpec → List HierarchicalStateSpec
drop_shared zero path = path
drop_shared (suc n) [] = []
drop_shared (suc n) (s ∷ path) = drop_shared n path

unfoldable pub last_shared : ℕ → List HierarchicalStateSpec → Option HierarchicalStateSpec
last_shared zero path = none
last_shared (suc n) [] = none
last_shared (suc zero) (s ∷ path) = some s
last_shared (suc (suc n)) (s ∷ path) = last_shared (suc n) path

unfoldable pub lca : Children → String → String → Option HierarchicalStateSpec
lca roots a b = last_shared (shared (path_to roots a) (path_to roots b)) (path_to roots a)

exit_of : StateFields → List HierarchicalTransitionSpec
exit_of f = elim f.exit_produces [
  | [] ↦ []
  | key ∷ keys ↦
      record {
        from = f.name;
        to = f.name <> "__EXIT_END";
        trigger = "__exit__" <> f.name;
        requires = [];
        produces = key ∷ keys;
      }
      ∷ []
]

entry_of : String → StateFields → List HierarchicalTransitionSpec
entry_of parent f = elim f.entry_produces [
  | [] ↦ []
  | key ∷ keys ↦
      record {
        from = parent;
        to = f.name;
        trigger = "__entry__" <> f.name;
        requires = [];
        produces = key ∷ keys;
      }
      ∷ []
]

-- The innermost state first.
exits : List HierarchicalStateSpec → List HierarchicalTransitionSpec
unfolding exit_of
exits [] = []
exits (s ∷ path) = exits path ++ exit_of (fields s)

entries : String → List HierarchicalStateSpec → List HierarchicalTransitionSpec
unfolding entry_of
entries parent [] = []
entries parent (s ∷ path) = entry_of parent (fields s) ++ entries (fields s).name path

-- `crashed`: the name of a parent that is not there is read.
pub data Compiled : Type 0 where
  compiled : List HierarchicalTransitionSpec → Compiled
  crashed : Compiled

-- The entries below `parent`; with none, the first state is a root.
entered :
    Option HierarchicalStateSpec
    → List HierarchicalTransitionSpec
    → List HierarchicalStateSpec
    → Compiled
unfolding entries
entered parent before [] = compiled before
entered (some p) before (s ∷ path) = compiled (before ++ entries (fields p).name (s ∷ path))
entered none before (s ∷ path) = elim (fields s).entry_produces [
  | [] ↦ compiled (before ++ entries (fields s).name path)
  | key ∷ keys ↦ crashed
]

compile_paths : List HierarchicalStateSpec → List HierarchicalStateSpec → Compiled
unfolding exits entered
compile_paths [] to = compiled []
compile_paths (f ∷ from) [] = compiled []
compile_paths (f ∷ from) (t ∷ to) =
    let n = shared (f ∷ from) (t ∷ to) in
    entered (last_shared n (t ∷ to)) (exits (drop_shared n (f ∷ from))) (drop_shared n (t ∷ to))

unfoldable pub compile_transition : Children → String → String → Compiled
unfolding compile_paths
compile_transition roots from to = compile_paths (path_to roots from) (path_to roots to)

-- `parentName ?? …`
unfoldable mutual
  unfolding entry_of exit_of

  pub walk_entry_exit : Option String → HierarchicalStateSpec → List HierarchicalTransitionSpec
  walk_entry_exit parent (spec f cs) =
      entry_of (get_or (f.name <> "__ENTRY_START") parent) f
      ++ (exit_of f ++ walk_all (some f.name) cs)

  pub walk_all : Option String → Children → List HierarchicalTransitionSpec
  walk_all parent end = []
  walk_all parent (s ⨾ ss) = walk_entry_exit parent s ++ walk_all parent ss

unfoldable pub synthesize : Children → List HierarchicalTransitionSpec
synthesize roots = walk_all none roots
