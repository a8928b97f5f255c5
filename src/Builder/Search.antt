-- ===== src/Builder/Search.antt =====
-- Breadth-first search as `checkReachability` of lang/ts/src/flow-definition.ts does it, on the graph
-- that `next` gives. The fuel counts the rounds of its loop.
pub mod Fresh
pub mod Marking
pub mod Complete
use tramli.Prelude.{
  String, ◌≡◌, refl, sym, ◌∙◌, ap, subst, ℕ, zero, suc, ◌+◌, ◌≤◌, ◌<◌, Bool, true, false, not,
  if◌then◌else◌, ◌⊎◌, inl, inr, ◌↔◌, ◌==◌, ◌||◌, eq_iff, List, [], ◌∷◌, ◌++◌, contains, filter,
  length, length-append, arith, Bool-cases, Member, here, there, Member-cons, Member-nil,
  Member-append_left, Member-append_right, Member-append_cases,
}
use tramli.Pipeline.Available.{contains-Member, Member-contains}

-- `if (!visited.has(t)) { visited.add(t); queue.push(t); }` for each target.
unfoldable pub mark_all : List String → List String × List String → List String × List String
mark_all [] s = s
mark_all (t ∷ ts) (visited, queue) =
    mark_all ts
      (if contains t visited then (visited, queue) else (visited ++ t ∷ [], queue ++ t ∷ []))

module _ (next : String → List String) where
  unfoldable pub search : ℕ → List String × List String → List String
  search zero (visited, queue) = visited
  search (suc fuel) (visited, []) = visited
  search (suc fuel) (visited, c ∷ queue) = search fuel (mark_all (next c) (visited, queue))

  -- `y` can be reached from `x`.
  pub data Reaches (x : String) : String → Type 0 where
    start : Reaches x x
    follow : {y z : String} → Reaches x y → Member z (next y) → Reaches x z
