-- ===== src/Engine/Chain.antt =====
-- The automatic part of a run (`executeAutoChain` and `executeSubFlow` of
-- lang/ts/src/flow-engine.ts). The loop recurs on the steps that are left of `maxChainDepth`.
pub mod Follows
pub mod Rounds
pub mod SubFlows
pub mod Rollback
use tramli.Prelude.{
  String, ◌<>◌, ◌==◌, ℕ, zero, suc, Bool, true, false, ◌&&◌, ◌||◌, if◌then◌else◌, Option, none,
  some, get_or, truthy, List, find, Dict, lookup,
}
use tramli.FlowError.{Thrown, flow_error, type_error, as_error, max_chain_depth_error}
use tramli.Context.{Value, snapshot, restore_from}
use tramli.Types.{StateConfig, Transition, is_auto, is_branch, is_sub_flow}
use tramli.FlowDefinition.{FlowDefinition, SubDefinition, transitions_from}
use tramli.FlowInstance.{FlowInstance, SubFlow, new, complete, set_active_sub_flow}
use tramli.Exec.{Outcome, done, raised, pure, gets, catch, ◌>>=◌, ◌>>◌}
use tramli.Engine.{Engine, Run, Act, raise_error, now, update_context, update_flow, call}
use tramli.Engine.Steps.{current_state, run_processor, advance}
use tramli.Engine.Errors.{handle_error}

-- `transitions.find(t => t.type === 'sub_flow')` and its like
unfoldable pub sub_flow_in : {D : Type 0} → List (Transition D) → Option (Transition D)
sub_flow_in ts = find (λ t. is_sub_flow t.type) ts

unfoldable pub auto_or_branch_in : {D : Type 0} → List (Transition D) → Option (Transition D)
auto_or_branch_in ts = find (λ t. is_auto t.type || is_branch t.type) ts

-- `label === o`
has_label : String → Option String → Bool
has_label label none = false
has_label label (some l) = l == label

or_else : {A : Type 0} → Option A → Option A → Option A
or_else none b = b
or_else (some a) b = some a

-- The transition whose processor runs on a branch: by label, else by target, else the one found.
unfoldable pub specific_branch :
    {D : Type 0} → String → String → Transition D → List (Transition D) → Transition D
unfolding has_label or_else
specific_branch label target t ts = get_or t (
    or_else (find (λ u. is_branch u.type && has_label label u.branch_label) ts)
      (find (λ u. is_branch u.type && u.to == target) ts))

-- `subFlow:${subDef.name}/${subFlow.exitState}`
unfoldable pub sub_flow_trigger : String → String → String
sub_flow_trigger name exit = "subFlow:" <> name <> "/" <> exit

module _ {F : Type 0} where
  -- `o!`, where reading a property of `undefined` throws.
  unfoldable pub demand : {A : Type 0} → String → Option A → Act F A
  demand name none r = raise_error (type_error name) r
  demand name (some a) r = done a r

module _ {D F : Type 0} where
  -- A method of the active sub-flow, which shares the context, the store and the clock.
  inside_cases :
      {A : Type 0} → Run (FlowInstance D F) → Outcome (Run F) A → Outcome (Run (FlowInstance D F)) A
  inside_cases r (done a s) =
      done a (record { flow = set_active_sub_flow (some s.flow) r.flow; env = s.env })
  inside_cases r (raised x s) =
      raised x (record { flow = set_active_sub_flow (some s.flow) r.flow; env = s.env })

  unfoldable pub inside : {A : Type 0} → Act F A → Act (FlowInstance D F) A
  unfolding inside_cases
  inside m r = elim r.flow.active_sub_flow [
    | none ↦ raise_error (type_error "activeSubFlow") r
    | some sub ↦ inside_cases r (m (record { flow = sub; env = r.env }))
  ]

module _ (e : Engine) where
  module _ {D F : Type 0} where
    unfoldable pub auto_step : Transition D → Act (FlowInstance D F) (Unit {0})
    auto_step t = do
      run_processor e true t.processor
      advance e t.to (elim t.processor [ none ↦ "auto" | some p ↦ p.name ])

    unknown_branch : String → String → Option String → Act (FlowInstance D F) String
    unknown_branch name label none =
        raise_error (
          flow_error "UNKNOWN_BRANCH" ("Branch '" <> name <> "' returned unknown label: " <> label))
    unknown_branch name label (some target) = pure target

    unfoldable pub branch_step :
        Transition D → List (Transition D) → Act (FlowInstance D F) (Unit {0})
    unfolding unknown_branch
    branch_step t ts = do
      branch ← demand "branch" t.branch
      label ← call branch.decide
      target ← unknown_branch branch.name label (truthy (lookup label t.branch_targets))
      run_processor e false (specific_branch label target t ts).processor
      advance e target (branch.name <> ":" <> label)

    unfoldable pub chain_step :
        Transition D → List (Transition D) → Act (FlowInstance D F) (Unit {0})
    unfolding auto_step branch_step
    chain_step t ts = if is_auto t.type then auto_step t else branch_step t ts

    -- The `catch` block: the data are restored, and the error is routed from the current state.
    recover : Dict Value → Thrown → Act (FlowInstance D F) Bool
    recover backup x = do
      update_context (restore_from backup)
      from ← current_state
      handle_error e from (some (as_error x))
      pure false

    -- `true`: the step was made, and the loop goes on.
    unfoldable pub try_step : Transition D → List (Transition D) → Act (FlowInstance D F) Bool
    unfolding chain_step recover
    try_step t ts = do
      backup ← gets (λ r. snapshot r.env.context)
      catch (do chain_step t ts; pure true) (recover backup)

    -- One round of the loop: `true` if it goes on.
    auto_or_stop : Option (Transition D) → List (Transition D) → Act (FlowInstance D F) Bool
    unfolding try_step
    auto_or_stop none ts = pure false
    auto_or_stop (some t) ts = try_step t ts

    sub_or_auto :
        (Transition D → Act (FlowInstance D F) Bool)
        → Option (Transition D)
        → List (Transition D)
        → Act (FlowInstance D F) Bool
    unfolding auto_or_stop
    sub_or_auto sub none ts = auto_or_stop (auto_or_branch_in ts) ts
    sub_or_auto sub (some t) ts = sub t

    unfoldable pub in_state :
        (Transition D → Act (FlowInstance D F) Bool)
        → String
        → StateConfig
        → Act (FlowInstance D F) Bool
    unfolding sub_or_auto
    in_state sub state cfg =
        if cfg.terminal then (do update_flow (complete state); pure false) else (do
          ts ← gets (λ r. transitions_from state r.flow.definition)
          sub_or_auto sub (sub_flow_in ts) ts)

    unfoldable pub chain_round :
        (Transition D → Act (FlowInstance D F) Bool) → Act (FlowInstance D F) Bool
    unfolding in_state
    chain_round sub = do
      state ← current_state
      found ← gets (λ r. lookup state r.flow.definition.state_config)
      cfg ← demand "terminal" found
      in_state sub state cfg

    unfoldable pub auto_loop :
        (Transition D → Act (FlowInstance D F) Bool) → ℕ → Act (FlowInstance D F) (Unit {0})
    unfolding chain_round
    auto_loop sub zero = raise_error max_chain_depth_error
    auto_loop sub (suc left) = do
      again ← chain_round sub
      elim again [ true ↦ auto_loop sub left | false ↦ pure tt ]

  -- No sub-flow stands inside a definition of depth 0.
  no_sub_flow : Transition ⊥ → Act (FlowInstance ⊥ ⊥) Bool
  no_sub_flow t = do d ← demand "initialState" t.sub_flow_definition; absurd d

  module _ {D F : Type 0} (chain : Act (FlowInstance D F) (Unit {0})) where
    -- Where the sub-flow's exit has no mapping, the error goes to the parent.
    unfoldable pub leave_by :
        String
        → String
        → Option String
        → Act (FlowInstance (FlowDefinition D) (FlowInstance D F)) (Unit {0})
    leave_by name exit none = do from ← current_state; handle_error e from none
    leave_by name exit (some target) = advance e target (sub_flow_trigger name exit)

    start_sub :
        FlowDefinition D → Act (FlowInstance (FlowDefinition D) (FlowInstance D F)) (Unit {0})
    start_sub d = do
      entered ← now
      created ← now
      update_flow (λ f.
          set_active_sub_flow
            (some (
              new f.id f.session_id d (get_or "null" d.initial_state) f.expires_at entered created))
            f)

    leave_if_completed :
        String
        → Option (Dict String)
        → Option String
        → Act (FlowInstance (FlowDefinition D) (FlowInstance D F)) Bool
    unfolding leave_by
    leave_if_completed name exits none = pure false
    leave_if_completed name exits (some exit) = do
      update_flow (set_active_sub_flow none)
      mappings ← demand "get" exits
      leave_by name exit (truthy (lookup exit mappings))
      pure true

    -- `false`: the sub-flow waits for an external event.
    unfoldable pub execute_sub_flow :
        Transition (FlowDefinition D)
        → Act (FlowInstance (FlowDefinition D) (FlowInstance D F)) Bool
    unfolding start_sub leave_if_completed
    execute_sub_flow t = do
      d ← demand "initialState" t.sub_flow_definition
      start_sub d
      inside chain
      exit ← inside (gets (λ r. r.flow.exit_state))
      leave_if_completed d.name t.exit_mappings exit

  unfoldable pub execute_auto_chain :
      (n : ℕ) → Act (FlowInstance (SubDefinition n) (SubFlow n)) (Unit {0})
  unfolding no_sub_flow
  execute_auto_chain zero = auto_loop no_sub_flow e.max_chain_depth
  execute_auto_chain (suc n) = auto_loop (execute_sub_flow (execute_auto_chain n)) e.max_chain_depth
