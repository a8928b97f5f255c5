-- ===== src/Engine/Chain/Rounds.antt =====
-- One round of the chain's loop, and the loop.
use tramli.Prelude.{String, ◌≡◌, ℕ, zero, suc, Bool, true, false, Member}
use tramli.Types.{Transition}
use tramli.FlowDefinition.Edges.{Leads}
use tramli.FlowInstance.{FlowInstance}
use tramli.FlowInstance.Follows.{Follows}
use tramli.Exec.{pure}
use tramli.Exec.Ensures.{Keeps, Ensures-pure, Ensures-gets, Ensures-bind, Ensures-weaken}
use tramli.Engine.{Engine, Env, Act}
use tramli.Engine.Frame.{Both, raise_error-Keeps}
use tramli.Engine.Chain.{chain_round, auto_loop}
use tramli.Engine.Chain.Follows.{demand-Keeps, current_state-Ensures, in_state-Keeps}

-- What a sub-flow's transition may do: it is one of the current state's.
abbrev pub SafeSub : {D F : Type 0} → (Transition D → Act (FlowInstance D F) Bool) → Type 0
SafeSub {D} {F} sub =
    (i : FlowInstance D F) (o : Env) (s : String) (t : Transition D)
    → Leads i.definition i.current_state s
    → Member t i.definition.transitions
    → t.from ≡ s
    → Keeps (Both (Follows i) o) (sub t)

module _ (e : Engine) {D F : Type 0} (sub : Transition D → Act (FlowInstance D F) Bool)
    (safe : SafeSub sub) (i : FlowInstance D F) (o : Env) where
  chain_round-Keeps : Keeps (Both (Follows i) o) (chain_round e sub)
  unfolding chain_round
  chain_round-Keeps = current_state-Ensures e i o λ s led.
      Ensures-bind (Ensures-gets {Q = λ _. Both (Follows i) o} _ (λ r h. h)) λ found.
        Ensures-bind (demand-Keeps (Follows i) o "terminal" found) λ cfg.
          Ensures-weaken (λ r p. p.0) (λ a r p. p) (λ r p. p)
            (in_state-Keeps e i o s led sub (λ t m q. safe i o s t led m q) cfg)

  pub auto_loop-Keeps : (left : ℕ) → Keeps (Both (Follows i) o) (auto_loop e sub left)
  unfolding auto_loop
  auto_loop-Keeps zero = raise_error-Keeps (Follows i) o _
  auto_loop-Keeps (suc left) = Ensures-bind chain_round-Keeps (again (auto_loop-Keeps left))
    where
      again :
          Keeps (Both (Follows i) o) (auto_loop e sub left)
          → (b : Bool)
          → Keeps (Both (Follows i) o) (elim b [ true ↦ auto_loop e sub left | false ↦ pure tt ])
      again k true = k
      again k false = Ensures-pure tt (λ r h. h)
