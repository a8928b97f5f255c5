-- ===== src/Prelude/Maps.antt =====
-- `Map` and `Set` with string keys: association lists in the order of insertion, in which a write to
-- a key that is there keeps its place.
pub mod Distinct
use Prim.Native.String.{String}
use mathlib.Core.Path.{◌≡◌, refl}
use mathlib.Core.Bool.{Bool, false, not, ◌||◌}
use mathlib.Core.Option.{Option, none, some}
use mathlib.Core.List.{List, [], ◌∷◌, ◌++◌}
use native.Mathlib.Omega.{arith}
use text.Mathlib.Text.{◌==◌}
use text.Mathlib.TextEquality.{eq_iff}
use text.Mathlib.TextPositions.{eq_refl}
use tramli.Prelude.Lists.{filter}
use tramli.Prelude.Tests.{if◌then◌else◌, is_some}

abbrev pub Dict {ℓ} : Type ℓ → Type ℓ
Dict V = List (String × V)

module _ {ℓ} {V : Type ℓ} where
  -- `m.get(key)`
  unfoldable pub lookup : String → Dict V → Option V
  lookup key [] = none
  lookup key ((name, held) ∷ rest) = if name == key then some held else lookup key rest

  -- `m.set(key, v)`: an entry that is there keeps its key and its place.
  unfoldable pub insert : String → V → Dict V → Dict V
  insert key v [] = (key, v) ∷ []
  insert key v ((name, held) ∷ rest) =
      let later = insert key v rest in
      if name == key then (name, v) ∷ rest else (name, held) ∷ later

  -- `m.has(k)`
  abbrev pub has : String → Dict V → Bool
  has k m = is_some (lookup k m)

  -- `for (const [k, v] of extra) m.set(k, v)`
  unfoldable pub insert_all : Dict V → Dict V → Dict V
  insert_all [] m = m
  insert_all ((k, v) ∷ extra) m = insert_all extra (insert k v m)

  -- `[...m.keys()]`
  unfoldable pub keys : Dict V → List String
  keys [] = []
  keys ((k, v) ∷ m) = k ∷ keys m

  -- `[...m.values()]`
  unfoldable pub values : Dict V → List V
  values [] = []
  values ((k, v) ∷ m) = v ∷ values m

  -- A read after a write sees it exactly at the key that was written.
  pub lookup-insert :
      (written asked : String) (v : V) (entries : Dict V)
      → lookup asked (insert written v entries)
        ≡ (if written == asked then some v else lookup asked entries)
  unfolding insert lookup
  lookup-insert written asked v [] = refl
  lookup-insert written asked v ((name, held) ∷ rest) =
      let ih = lookup-insert written asked v rest in
      ground (arith, eq_iff name written, eq_iff name asked, eq_iff written asked)

  pub lookup-insert_self :
      (key : String) (v : V) (entries : Dict V) → lookup key (insert key v entries) ≡ some v
  lookup-insert_self key v entries = rw (lookup-insert, eq_refl key)

-- `s.has(k)` for a set of strings.
unfoldable pub contains : String → List String → Bool
contains k [] = false
contains k (j ∷ s) = j == k || contains k s

-- `s.add(k)`
unfoldable pub add : String → List String → List String
add k s = if contains k s then s else s ++ k ∷ []

-- `for (const k of ks) s.add(k)`
unfoldable pub add_all : List String → List String → List String
add_all [] s = s
add_all (k ∷ ks) s = add_all ks (add k s)

-- `s.delete(k)`
unfoldable pub delete : String → List String → List String
delete k s = filter (λ j. not (j == k)) s
