-- ===== src/Builder/Outgoing.antt =====
-- Whether transitions leave terminal states (`checkTerminalNoOutgoing` of
-- lang/ts/src/flow-definition.ts), and how errors of checks are put together.
use tramli.Prelude.{
  String, ◌<>◌, ◌≡◌, refl, true, not, ◌&&◌, if◌then◌else◌, none, some, inl, inr, List, [], ◌∷◌,
  ◌++◌, lookup, Dict, Bool-cases, Option-cases, append-eq-nil, Member, Member-cons, Member-nil,
  subst,
}
use tramli.FlowError.{type_error}
use tramli.Types.{StateConfig, Transition, is_sub_flow}
use tramli.FlowDefinition.{FlowDefinition}
use tramli.Builder.Terminal.{Checked, reports, throws}

-- Errors, and then what follows; a throw ends it.
unfoldable pub reported : List String → Checked → Checked
reported errors (reports later) = reports (errors ++ later)
reported errors (throws e) = throws e

unfoldable pub and_check : Checked → Checked → Checked
and_check (reports errors) later = reported errors later
and_check (throws e) later = throws e

module _ {D : Type 0} where
  outgoing_error : Transition D → StateConfig → List String
  outgoing_error t cfg =
      if cfg.terminal && not (is_sub_flow t.type)
      then ("Terminal state " <> t.from <> " has an outgoing transition to " <> t.to) ∷ []
      else []

  outgoing_errors : Dict StateConfig → List (Transition D) → Checked
  unfolding outgoing_error
  outgoing_errors config [] = reports []
  outgoing_errors config (t ∷ ts) =
      let later = outgoing_errors config ts in
      elim (lookup t.from config) [
        | none ↦ throws (type_error "terminal")
        | some cfg ↦ reported (outgoing_error t cfg) later
      ]

  unfoldable pub check_terminal_no_outgoing : FlowDefinition D → Checked
  unfolding outgoing_errors
  check_terminal_no_outgoing d = outgoing_errors d.state_config d.transitions

pub reported-nil :
    (errors : List String) (c : Checked)
    → reported errors c ≡ reports []
    → (errors ≡ []) × (c ≡ reports [])
unfolding reported
reported-nil errors (reports later) h =
    let p : errors ++ later ≡ [] = cc in let (q, r) = append-eq-nil errors later p in (q, rw r refl)
reported-nil errors (throws e) h = cc

pub and_check-nil :
    (c k : Checked) → and_check c k ≡ reports [] → (c ≡ reports []) × (k ≡ reports [])
unfolding and_check
and_check-nil (reports errors) k h = let (p, q) = reported-nil errors k h in (rw p refl, q)
and_check-nil (throws e) k h = cc

module _ {D : Type 0} where
  -- The transition starts at a configured state, and at a terminal one only if it is a sub-flow.
  abbrev pub Leaves : Dict StateConfig → Transition D → Type 0
  Leaves config t =
      (cfg : StateConfig) × (lookup t.from config ≡ some cfg)
      × (cfg.terminal ≡ true → is_sub_flow t.type ≡ true)

  outgoing_errors-nil :
      (config : Dict StateConfig) (ts : List (Transition D)) {t : Transition D}
      → outgoing_errors config ts ≡ reports []
      → Member t ts
      → Leaves config t
  unfolding outgoing_error outgoing_errors
  outgoing_errors-nil config [] h m = absurd (Member-nil m)
  outgoing_errors-nil config (u ∷ ts) {t} h m = elim (Option-cases (lookup u.from config)) [
    | inl e ↦ absurd (not_thrown (rw (e, outgoing_errors) at h))
    | inr (cfg, e) ↦
        let (none_here, later) =
          reported-nil (outgoing_error u cfg) (outgoing_errors config ts)
            (rw (e, outgoing_errors) at h) in
        elim (Member-cons m) [
          | inl q ↦
              subst (Leaves config) q (cfg, e, λ terminal. sub_flow_only u cfg terminal none_here)
          | inr n ↦ outgoing_errors-nil config ts later n
        ]
  ]
    where
      not_thrown : ¬ throws (type_error "terminal") ≡ reports []
      not_thrown q = cc

      sub_flow_only :
          (u : Transition D) (cfg : StateConfig)
          → cfg.terminal ≡ true
          → outgoing_error u cfg ≡ []
          → is_sub_flow u.type ≡ true
      sub_flow_only u cfg terminal h = elim (Bool-cases (is_sub_flow u.type)) [
        | inl e ↦ e
        | inr e ↦ absurd (not_nil (rw (terminal, e, outgoing_error) at h))
      ]
        where
          not_nil : {x : String} {xs : List String} → ¬ (x ∷ xs) ≡ []
          not_nil q = cc

  pub check_terminal_no_outgoing-Leaves :
      (d : FlowDefinition D) {t : Transition D}
      → check_terminal_no_outgoing d ≡ reports []
      → Member t d.transitions
      → Leaves d.state_config t
  unfolding check_terminal_no_outgoing
  check_terminal_no_outgoing-Leaves d h m = outgoing_errors-nil d.state_config d.transitions h m
