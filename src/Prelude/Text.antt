-- ===== src/Prelude/Text.antt =====
-- Printing: numbers in decimal, and lists of texts. Texts are ordered by the codes of their
-- characters, where the source's `sort` compares units of UTF-16: these differ beyond U+FFFF only.
use Prim.Native.Nat.{ℕ, zero, suc, Ordering, ◌+◌, ◌/◌, ◌%◌}
use Prim.Native.String.{String, ◌++◌ as text_append, slice, compare}
use mathlib.Core.Path.{◌≡◌, refl}
use mathlib.Core.List.{List, [], ◌∷◌}
use tramli.Prelude.Tests.{ltb, if◌then◌else◌}

abbrev digit : ℕ → String
digit d = slice "0123456789" d (d + 1)

-- A number has fewer digits than it is large.
decimal_from : ℕ → ℕ → String
decimal_from zero n = digit (n % 10)
decimal_from (suc fuel) n =
    let higher = decimal_from fuel (n / 10) in
    if ltb n 10 then digit n else text_append higher (digit (n % 10))

-- `${n}`
unfoldable pub decimal : ℕ → String
unfolding decimal_from
decimal n = decimal_from n n

join_rest : String → List String → String
join_rest separator [] = ""
join_rest separator (t ∷ ts) = text_append (text_append separator t) (join_rest separator ts)

-- `ts.join(separator)`
unfoldable pub join : String → List String → String
unfolding join_rest
join separator [] = ""
join separator (t ∷ ts) = text_append t (join_rest separator ts)

insert_sorted : String → List String → List String
insert_sorted t [] = t ∷ []
insert_sorted t (u ∷ us) =
    let later = insert_sorted t us in
    elim (compare t u) [
      | Ordering.lt ↦ t ∷ u ∷ us
      | Ordering.eq ↦ t ∷ u ∷ us
      | Ordering.gt ↦ u ∷ later
    ]

-- `ts.sort()`
unfoldable pub sort : List String → List String
unfolding insert_sorted
sort [] = []
sort (t ∷ ts) = insert_sorted t (sort ts)

hundred_and_five : decimal 105 ≡ "105"
unfolding decimal
hundred_and_five = refl

sorted_words : sort ("pear" ∷ "apple" ∷ "fig" ∷ []) ≡ "apple" ∷ "fig" ∷ "pear" ∷ []
unfolding sort
sorted_words = refl
