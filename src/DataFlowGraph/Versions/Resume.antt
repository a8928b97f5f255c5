-- ===== src/DataFlowGraph/Versions/Resume.antt =====
-- What `versionCompatibility` promises: flows of the old definition can be resumed with the new one.
use tramli.Prelude.{
  filter-nil, filter-none, append-eq-nil, String, ◌==◌, eq_iff, ◌≡◌, sym, subst, true, false, not,
  inl, inr, some, get_or, List, [], ◌∷◌, contains, lookup, is_some, Bool-cases, Option-cases,
  Member, Member-cons, Member-nil,
}
use tramli.Context.{Context, has_key}
use tramli.Pipeline.Available.{contains-Member}
use tramli.Availability.{Seen}
use tramli.DataFlowGraph.{DataFlowGraph}
use tramli.DataFlowGraph.Queries.{available_at, assert_data_flow}
use tramli.DataFlowGraph.Versions.{new_types, incompatible_from, version_compatibility}

new_types-nil :
    (state : String) (before after : List String) {t : String}
    → new_types state before after ≡ []
    → Member t after
    → Member t before
unfolding new_types
new_types-nil state before [] h m = absurd (Member-nil m)
new_types-nil state before (u ∷ after) {t} h m = elim (Bool-cases (contains u before)) [
  | inl e ↦ elim (Member-cons m) [
    | inl q ↦ subst (λ z. Member z before) q (contains-Member u before e)
    | inr n ↦ new_types-nil state before after (rw e at h) n
  ]
  | inr e ↦ absurd (not_nil (rw e at h))
]
  where
    not_nil : {x : String} {xs : List String} → ¬ (x ∷ xs) ≡ []
    not_nil q = cc

-- A state that the old graph knows: what the new one has there, the old one has.
incompatible_from-nil :
    (after before : Seen) (state : String) {available : List String} {t : String}
    → incompatible_from after before ≡ []
    → lookup state before ≡ some available
    → Member t (get_or [] (lookup state after))
    → Member t available
unfolding incompatible_from lookup
incompatible_from-nil after [] state h e m = cc
incompatible_from-nil after ((name, held) ∷ rest) state {available} {t} h e m =
    elim (Bool-cases (name == state)) [
      | inl q ↦
          let same : held ≡ available = (let p = rw q at e in cc) in
          subst (Member t) same (
            new_types-nil name held (get_or [] (lookup name after))
              (append-eq-nil (new_types name held (get_or [] (lookup name after)))
                (incompatible_from after rest) h).0
              (subst (λ z. Member t (get_or [] (lookup z after))) (sym ((eq_iff name state).0 q))
                m))
      | inr q ↦
          incompatible_from-nil after rest state
            (append-eq-nil (new_types name held (get_or [] (lookup name after)))
              (incompatible_from after rest) h).1
            (rw q at e) m
    ]

-- Where the comparison of two versions reports nothing, a flow of the old version whose context has
-- all data of its state, a state that the old graph knows, has all data that the new version counts
-- on in that state.
pub version_compatibility-resumes :
    (before after : DataFlowGraph) (c : Context) (state : String)
    → version_compatibility before after ≡ []
    → is_some (lookup state before.available_at_state) ≡ true
    → assert_data_flow c state before ≡ []
    → assert_data_flow c state after ≡ []
unfolding version_compatibility assert_data_flow available_at
version_compatibility-resumes before after c state accepted known whole =
    elim (Option-cases (lookup state before.available_at_state)) [
      | inl e ↦ absurd (not_known (rw e at known))
      | inr (available, e) ↦
          filter-none (λ type. not (has_key type c))
            (get_or [] (lookup state after.available_at_state))
            λ x m.
              filter-nil (λ type. not (has_key type c)) available (rw e at whole)
                (incompatible_from-nil after.available_at_state before.available_at_state state
                  accepted e m)
    ]
  where
    not_known : ¬ false ≡ true
    not_known q = cc
