-- ===== src/FlowDefinition/Edges.antt =====
-- The graph of a definition: every way that the engine may lead from one state to another.
use tramli.Prelude.{String, ◌≡◌, some, List, Member, Dict, lookup}
use tramli.Types.{Transition}
use tramli.FlowDefinition.{ExceptionRoute, FlowDefinition}

pub data Edge {D : Type 0} (d : FlowDefinition D) (s u : String) : Type 0 where
  transition : (t : Transition D) → Member t d.transitions → t.from ≡ s → t.to ≡ u → Edge d s u
  branch :
      (t : Transition D) (label : String)
      → Member t d.transitions
      → t.from ≡ s
      → lookup label t.branch_targets ≡ some u
      → Edge d s u
  exit :
      (t : Transition D) (mappings : Dict String) (label : String)
      → Member t d.transitions
      → t.from ≡ s
      → t.exit_mappings ≡ some mappings
      → lookup label mappings ≡ some u
      → Edge d s u
  error : lookup s d.error_transitions ≡ some u → Edge d s u
  exception :
      (routes : List ExceptionRoute) (route : ExceptionRoute)
      → lookup s d.exception_routes ≡ some routes
      → Member route routes
      → route.target ≡ u
      → Edge d s u

-- A walk along edges.
pub data Leads {D : Type 0} (d : FlowDefinition D) (s : String) : String → Type 0 where
  here : Leads d s s
  then : {u v : String} → Leads d s u → Edge d u v → Leads d s v

pub Leads-trans :
    {D : Type 0} {d : FlowDefinition D} {s u v : String} → Leads d s u → Leads d u v → Leads d s v
Leads-trans p here = p
Leads-trans p (then q x) = then (Leads-trans p q) x
