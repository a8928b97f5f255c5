-- ===== src/Engine/Resume/Expiry.antt =====
-- A flow whose deadline has passed.
use tramli.Prelude.{◌≡◌, refl, ℕ, ◌+◌, ◌<◌, ltb, true, Option, Dict, arith}
use tramli.Context.{Value, put_all}
use tramli.FlowDefinition.{FlowDefinition, SubDefinition}
use tramli.FlowInstance.{FlowInstance, SubFlow, complete}
use tramli.Exec.{done, gets, ◌>>=◌}
use tramli.Engine.{Engine, Run, now, update_context, update_flow}
use tramli.Engine.External.{accepted_data, put_data}
use tramli.Engine.Resume.{unless_expired, resume_loaded}

-- The flow has expired; the data are put all the same.
abbrev pub expire :
    {D F : Type 0} → Option (Dict Value) → Run (FlowInstance D F) → Run (FlowInstance D F)
expire extra r = record {
  flow = complete "EXPIRED" r.flow;
  env = record r.env {
    context = put_all (accepted_data extra) r.env.context;
    moment = r.env.moment + 1;
  };
}

module _ (e : Engine) (n : ℕ) where
  pub resume_loaded-expire :
      (d : FlowDefinition (SubDefinition n)) (extra : Option (Dict Value))
      (r : Run (FlowInstance (SubDefinition n) (SubFlow n)))
      → r.flow.expires_at < r.env.clock r.env.moment
      → resume_loaded e n d extra r ≡ done tt (expire extra r)
  unfolding resume_loaded put_data update_context now gets ◌>>=◌ unless_expired update_flow
  resume_loaded-expire d extra r h =
      let late : ltb r.flow.expires_at (r.env.clock r.env.moment) ≡ true = ground arith in
      rw late refl
