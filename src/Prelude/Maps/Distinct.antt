-- ===== src/Prelude/Maps/Distinct.antt =====
-- Association lists that are maps: no key stands twice.
use Prim.Native.String.{String}
use mathlib.Core.Path.{◌≡◌, refl, ap, ◌∙◌, sym}
use mathlib.Core.Logic.{inl, inr}
use mathlib.Core.Option.{none}
use mathlib.Core.List.{[], ◌∷◌, ◌++◌, append-nil, append_assoc}
use native.Mathlib.Omega.{arith}
use text.Mathlib.Text.{◌==◌}
use text.Mathlib.TextEquality.{eq_iff}
use tramli.Prelude.Tests.{Bool-cases}
use tramli.Prelude.Maps.{Dict, lookup, insert, insert_all, lookup-insert}

module _ {ℓ} {V : Type ℓ} where
  abbrev pub IsMap : Dict V → Type ℓ
  IsMap [] = Unit
  IsMap ((k, v) ∷ m) = (lookup k m ≡ none) × IsMap m

  pub insert-IsMap : (k : String) (v : V) (m : Dict V) → IsMap m → IsMap (insert k v m)
  unfolding insert lookup
  insert-IsMap k v [] h = (refl, tt)
  insert-IsMap k v ((j, w) ∷ m) (new, h) = elim (Bool-cases (j == k)) [
    | inl e ↦ rw e (new, h)
    | inr e ↦
        rw e (
          rw (lookup-insert k j v m) (ground (arith, eq_iff k j, eq_iff j k)),
          insert-IsMap k v m h,
        )
  ]

  pub insert_all-IsMap : (extra m : Dict V) → IsMap m → IsMap (insert_all extra m)
  unfolding insert_all
  insert_all-IsMap [] m h = h
  insert_all-IsMap ((k, v) ∷ extra) m h =
      insert_all-IsMap extra (insert k v m) (insert-IsMap k v m h)

  insert-fresh :
      (k : String) (v : V) (m : Dict V) → lookup k m ≡ none → insert k v m ≡ m ++ (k, v) ∷ []
  unfolding insert lookup
  insert-fresh k v [] h = refl
  insert-fresh k v ((j, w) ∷ m) h = ground (arith, insert-fresh k v m)

  lookup-append :
      (k : String) (m n : Dict V) → lookup k m ≡ none → lookup k n ≡ none → lookup k (m ++ n) ≡ none
  unfolding lookup
  lookup-append k [] n h l = l
  lookup-append k ((j, w) ∷ m) n h l = ground (arith, lookup-append k m n)

  -- No key of the first list stands in the second.
  abbrev Fresh : Dict V → Dict V → Type ℓ
  Fresh [] m = Unit
  Fresh ((k, v) ∷ extra) m = (lookup k m ≡ none) × Fresh extra m

  Fresh-nil : (extra : Dict V) → Fresh extra []
  unfolding lookup
  Fresh-nil [] = tt
  Fresh-nil (x ∷ extra) = (refl, Fresh-nil extra)

  Fresh-concat :
      (extra m : Dict V) (k : String) (v : V)
      → lookup k extra ≡ none
      → Fresh extra m
      → Fresh extra (m ++ (k, v) ∷ [])
  unfolding lookup
  Fresh-concat [] m k v h f = tt
  Fresh-concat ((j, w) ∷ extra) m k v h (f, fs) = (
    lookup-append j m ((k, v) ∷ []) f (ground (arith, eq_iff k j, eq_iff j k)),
    Fresh-concat extra m k v (ground arith) fs,
  )

  insert_all-append :
      (extra m : Dict V) → IsMap extra → Fresh extra m → insert_all extra m ≡ m ++ extra
  unfolding insert_all
  insert_all-append [] m h f = sym (append-nil m)
  insert_all-append ((k, v) ∷ extra) m (new, h) (f, fs) =
      ap (insert_all extra) (insert-fresh k v m f)
      ∙ insert_all-append extra (m ++ (k, v) ∷ []) h (Fresh-concat extra m k v new fs)
      ∙ append_assoc m ((k, v) ∷ []) extra

  -- Copying a map into an empty one gives the map.
  pub insert_all-nil : (m : Dict V) → IsMap m → insert_all m [] ≡ m
  insert_all-nil m h = insert_all-append m [] h (Fresh-nil m)
