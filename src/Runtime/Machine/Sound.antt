-- ===== src/Runtime/Machine/Sound.antt =====
-- What holds of a job between two signals, and the steps that the handlers share.
use cluster_manager_das.Prelude.{
  ℕ, String, Bool, true, Option, some, ◌≡◌, refl, sym, ◌∙◌, Bool-cases, inl, inr,
}
use mathlib.Core.Path.{subst}
use cluster_manager_das.Runtime.RunState.{
  RunState, starting, pending, running, recovering, SavedState, Config, get_state, set_state,
}
use cluster_manager_das.Runtime.RunState.Restart.{resumed, get_state-set_state}
use cluster_manager_das.Runtime.Proxy.{FaultReport, NodePoolProxy}
use cluster_manager_das.Runtime.Context.{
  Value, Payload, RuntimeContext, RecoveryPhase, set_run_state, handle_runtime_fault,
}
use cluster_manager_das.Runtime.Context.Isolation.{
  IsKept, add_current_snapshot_param-IsKept, handle_runtime_fault-IsHandled,
}
use cluster_manager_das.Runtime.Machine.State.{JobStateMachine}
use cluster_manager_das.Runtime.Machine.Handlers.{
  is_recovering, start_recovering, enter_recovering, call_handle,
}

-- The states of a job that the manager drives; a job that recovers has a phase, so that
-- `next_action` has a command for it.
abbrev pub Driven : RunState → Option RecoveryPhase → Type 0
Driven starting phase = Unit
Driven pending phase = Unit
Driven running phase = Unit
Driven recovering (some phase) = Unit
Driven _ _ = ⊥

-- A job between two signals: the pool follows its rules, the snapshot's file has the snapshot, the
-- state is one of the four, and a restart would go on from it, if the state file can be written.
pub record IsSound (c : RuntimeContext) : Type 0 where
  pub kept : IsKept c.node_pool_proxy
  pub driven : Driven c.run_state c.recovery_phase
  pub resumable :
      c.state_writable ≡ true
      → get_state c.state_file c.config.megatron_config ≡ resumed c.run_state

pub set_state_lem :
    (writable : Bool) (s : RunState) (config : Config) (old : Option SavedState)
    → writable ≡ true
    → get_state (set_state writable s config old) config ≡ resumed s
set_state_lem writable s config old w =
    rw w ((get_state-set_state s config config old).0 (λ key. refl))

pub set_run_state-IsSound :
    (s : RunState) (c : RuntimeContext)
    → IsKept c.node_pool_proxy
    → Driven s c.recovery_phase
    → IsSound (set_run_state s c)
unfolding set_run_state
set_run_state-IsSound s c k d = record {
  kept = k;
  driven = d;
  resumable = set_state_lem c.state_writable s c.config.megatron_config c.state_file;
}

pub with_proxy-IsSound :
    (x : NodePoolProxy) (c : RuntimeContext)
    → IsKept x
    → IsSound c
    → IsSound (record c { node_pool_proxy = x })
with_proxy-IsSound x c k h = record { kept = k; driven = h.driven; resumable = h.resumable }

-- What a signal does to the machine, but for the trace.
pub record IsStep (m q : JobStateMachine) : Type 0 where
  pub sound : IsSound q.ctx
  pub same_trace : q.flow_trace ≡ m.flow_trace

pub started_recovering-IsSound :
    (now : ℕ) (c : RuntimeContext) → IsKept c.node_pool_proxy → IsSound (start_recovering now c)
unfolding start_recovering set_run_state
started_recovering-IsSound now c h = record {
  kept = add_current_snapshot_param-IsKept _ c.node_pool_proxy h;
  driven = tt;
  resumable = set_state_lem c.state_writable recovering c.config.megatron_config c.state_file;
}

pub enter_recovering-IsStep :
    (now : ℕ) (m : JobStateMachine) → IsSound m.ctx → IsStep m (enter_recovering now m).1
unfolding enter_recovering
enter_recovering-IsStep now m h = elim (Bool-cases (is_recovering m.ctx.run_state)) [
  | inl e ↦ rw e (record { sound = h; same_trace = refl })
  | inr e ↦ rw e (record { sound = started_recovering-IsSound now m.ctx h.kept; same_trace = refl })
]

handle-IsSound :
    (raises : FaultReport → Bool) (info : Value) (fault_type : String) (reason : Payload)
    (c : RuntimeContext)
    → IsSound c
    → IsSound (handle_runtime_fault raises info fault_type reason c).1
handle-IsSound raises info fault_type reason c h =
    let k = handle_runtime_fault-IsHandled raises reason c h.kept info fault_type in
    subst IsSound (sym k.same) (with_proxy-IsSound _ c k.kept h)

pub call_handle-IsStep :
    (raises : FaultReport → Bool) (info : Value) (fault_type : String) (reason : Payload)
    (m : JobStateMachine)
    → IsSound m.ctx
    → IsStep m (call_handle raises info fault_type reason m).1
unfolding call_handle
call_handle-IsStep raises info fault_type reason m h = record {
  sound = handle-IsSound raises info fault_type reason m.ctx h;
  same_trace = refl;
}

pub IsStep-trans : (m q r : JobStateMachine) → IsStep m q → IsStep q r → IsStep m r
IsStep-trans m q r a b = record { sound = b.sound; same_trace = b.same_trace ∙ a.same_trace }
