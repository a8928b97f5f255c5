-- ===== src/Builder/Dag/Exact.antt =====
-- The check for cycles gives the whole truth.
use tramli.Prelude.{
  String, ◌==◌, ◌≡◌, refl, sym, subst, suc, ◌↔◌, Bool, ◌&&◌, ◌||◌, ◌⊎◌, inl, inr, List, [], ◌∷◌,
  contains, filter, map, length, arith, Bool-cases, Member, here, there, Member-cons, Member-nil,
  Member-append_left, Member-append_right,
}
use tramli.Types.{is_auto, is_branch}
use tramli.FlowDefinition.{FlowDefinition, all_states}
use tramli.Pipeline.Available.{contains-Member, Member-add_all}
use tramli.Builder.Search.{Reaches, start}
use tramli.Builder.Search.Fresh.{fresh_le}
use tramli.Builder.Dag.{
  CycleWalk, cycle, clear, has_cycle, Involved, involving, acyclic, first_cycle, search_states,
  cycle_errors, auto_targets, auto_states, cycle_search, check_dag,
}
use tramli.Builder.Dag.Ordered.{Ordered, OnCycle, Ordered-Reaches, Ordered-acyclic}
use tramli.Builder.Dag.Search.{Finished, Tells, has_cycle-Visits}

module _ (next : String → List String) where
  -- A state that leads to a cycle; or an order of all states and of all that they lead to.
  abbrev Found : List String → List String → Involved → Type 0
  Found states done (involving s) =
      Member s states × ((x : String) × Reaches next s x × OnCycle next x)
  Found states done acyclic =
      (more : List String) × Ordered next more
      × ((x : String) → Member x done → Member x more)
      × ((x : String) → Member x states → Member x more)

  Found-skip :
      (s : String) (states done : List String) (w : Involved)
      → Member s done
      → Found states done w
      → Found (s ∷ states) done w
  Found-skip s states done (involving u) m (k, c) = (there k, c)
  Found-skip s states done acyclic m (more, ordered, keeps, all) = (
    more,
    ordered,
    keeps,
    λ x k. elim (Member-cons k) [
      | inl q ↦ subst (λ z. Member z more) q (keeps s m)
      | inr n ↦ all x n
    ],
  )

  Found-later :
      (states done more : List String) (w : Involved)
      → ((x : String) → Member x done → Member x more)
      → Found states more w
      → Found states done w
  Found-later states done more (involving u) keeps t = t
  Found-later states done more acyclic keeps (end, ordered, later, all) =
      (end, ordered, λ x m. later x (keeps x m), all)

  Found-then :
      (s : String) (states visited done : List String) (w : CycleWalk)
      (k : List String → List String → Involved)
      → Tells next s (s ∷ []) visited [] done w
      → ((after more : List String) → Finished next after [] more → Found states more (k after []))
      → Found (s ∷ states) done (first_cycle s w k)
  Found-then s states visited done cycle k t h = (here, t)
  Found-then s states visited done (clear after left) k (same, grows, (more, fin, keeps, got)) h =
      Found-later (s ∷ states) done more (k after left) keeps (
        Found-skip s states more (k after left) (got s here)
          (subst (λ z. Found states more (k after z)) (sym same) (h after more fin)))

  module _ (us : List String) (all : (x y : String) → Member y (next x) → Member y us) where
    search_states-Found :
        (states visited done : List String)
        → ((s : String) → Member s states → Member s us)
        → Finished next visited [] done
        → Found states done (search_states (has_cycle next (suc (length us))) states visited [])
    unfolding search_states
    search_states-Found [] visited done among fin =
        (done, fin.ordered, λ x m. m, λ x m. absurd (Member-nil m))
    search_states-Found (s ∷ states) visited done among fin =
        elim (Bool-cases (contains s visited)) [
          | inl old ↦
              rw (old, search_states)
                (Found-skip s states done _ (finished (fin.split s (contains-Member s visited old)))
                  (search_states-Found states visited done (λ u m. among u (there m)) fin))
          | inr new ↦
              rw (new, search_states)
                (Found-then s states visited done _ _
                  (has_cycle-Visits next s us all (suc (length us)) s visited [] done (among s here)
                    (omega (arith, fresh_le us visited)) new fin
                    (start, λ x m. absurd (Member-nil m)))
                  λ after more fin_after.
                    search_states-Found states after more (λ u m. among u (there m)) fin_after)
        ]
      where
        finished : Member s done ⊎ Member s [] → Member s done
        finished (inl d) = d
        finished (inr n) = absurd (Member-nil n)

map-Member :
    {A : Type 0} (f : A → String) (p : A → Bool) (ts : List A) {y : String}
    → Member y (map f (filter p ts))
    → Member y (map f ts)
map-Member f p [] m = absurd (Member-nil m)
map-Member f p (t ∷ ts) {y} m = elim (Bool-cases (p t)) [
  | inl e ↦ elim (Member-cons (rw e at m)) [
    | inl q ↦ subst (λ z. Member z (f t ∷ map f ts)) q here
    | inr n ↦ there (map-Member f p ts n)
  ]
  | inr e ↦ there (map-Member f p ts (rw e at m))
]

module _ {D : Type 0} (d : FlowDefinition D) where
  auto_targets-Member : (x y : String) → Member y (auto_targets d x) → Member y (auto_states d)
  unfolding auto_targets auto_states
  auto_targets-Member x y m = elim (Member-add_all _ [] m) [
    | inl l ↦ Member-append_right (all_states d) (
        map-Member (λ t. t.to) (λ t. (is_auto t.type || is_branch t.type) && t.from == x)
          d.transitions l)
    | inr n ↦ absurd (Member-nil n)
  ]

  -- No state leads, by automatic and branch transitions, to a cycle of these.
  abbrev pub Acyclic : Type 0
  Acyclic =
      (s x : String)
      → Member s (all_states d)
      → Reaches (auto_targets d) s x
      → ¬ OnCycle (auto_targets d) x

  -- The check for cycles reports nothing exactly when no state of the definition leads, by automatic
  -- and branch transitions, to a cycle of these.
  pub check_dag_lem : (check_dag d ≡ []) ↔ Acyclic
  unfolding check_dag cycle_errors cycle_search
  check_dag_lem = by_search (cycle_search d) searched
    where
      searched : Found (auto_targets d) (all_states d) [] (cycle_search d)
      searched =
          search_states-Found (auto_targets d) (auto_states d) auto_targets-Member (all_states d) []
            [] (λ s m. unfold auto_states in (Member-append_left _ m))
            (record { ordered = tt; split = λ x m. absurd (Member-nil m) })

      by_search :
          (w : Involved)
          → Found (auto_targets d) (all_states d) [] w
          → (cycle_errors w ≡ []) ↔ Acyclic
      by_search acyclic (more, ordered, keeps, all) = (
        λ _ s x m r.
            Ordered-acyclic (auto_targets d) more ordered
              (Ordered-Reaches (auto_targets d) more ordered (all s m) r),
        λ _. refl,
      )
      by_search (involving s) (m, (x, r, c)) = (λ h. cc, λ h. absurd (h s x m r c))
