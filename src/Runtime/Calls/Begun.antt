-- ===== src/Runtime/Calls/Begun.antt =====
-- The job that a start of the program begins with.
use cluster_manager_das.Prelude.{
  ℕ, false, Option, none, some, ◌≡◌, refl, sym, ap, ◌∙◌, Bool-cases, inl, inr,
}
use mathlib.Core.Path.{subst}
use cluster_manager_das.Runtime.RunState.{
  RunState, init, starting, pending, running, hang, loss_divergence, recovering, fault,
  fault_recover, complete, SavedState, Config, has_diff, state_named, state_of_name, get_state,
}
use cluster_manager_das.Runtime.RunState.Restart.{resumed}
use cluster_manager_das.Runtime.Proxy.{release_nodes}
use cluster_manager_das.Runtime.Context.{RecoveryPhase, stopping, set_run_state}
use cluster_manager_das.Runtime.Context.Isolation.{IsKept, release_nodes-IsKept}
use cluster_manager_das.Runtime.Machine.{init_from, init_state}
use cluster_manager_das.Runtime.Machine.State.{JobStateMachine}
use cluster_manager_das.Runtime.Machine.Handlers.{is_recovering, start_recovering, enter_recovering}
use cluster_manager_das.Runtime.Machine.Sound.{
  IsSound, set_run_state-IsSound, started_recovering-IsSound, Driven,
}

-- A state that was read back is never RUNNING.
state_of_name-resumed_twice : (o : Option RunState) → resumed (state_of_name o) ≡ state_of_name o
unfolding state_of_name
state_of_name-resumed_twice none = refl
state_of_name-resumed_twice (some init) = refl
state_of_name-resumed_twice (some starting) = refl
state_of_name-resumed_twice (some pending) = refl
state_of_name-resumed_twice (some running) = refl
state_of_name-resumed_twice (some hang) = refl
state_of_name-resumed_twice (some loss_divergence) = refl
state_of_name-resumed_twice (some recovering) = refl
state_of_name-resumed_twice (some fault) = refl
state_of_name-resumed_twice (some fault_recover) = refl
state_of_name-resumed_twice (some complete) = refl

get_state-resumed :
    (file : Option SavedState) (current : Config)
    → resumed (get_state file current) ≡ get_state file current
unfolding get_state
get_state-resumed none current = refl
get_state-resumed (some saved) current =
    elim (Bool-cases (has_diff saved.megatron_config current)) [
      | inl e ↦ rw e refl
      | inr e ↦ rw e (state_of_name-resumed_twice (state_named saved.run_state))
    ]

-- The states in which a job begins.
abbrev pub Begins : RunState → Option RecoveryPhase → Type 0
Begins starting phase = Unit
Begins pending phase = Unit
Begins recovering (some phase) = Unit
Begins _ _ = ⊥

module _ (now : ℕ) (m : JobStateMachine) (h : IsKept m.ctx.node_pool_proxy)
    (read : m.ctx.run_state ≡ get_state m.ctx.state_file m.ctx.config.megatron_config) where
  goes_on : get_state m.ctx.state_file m.ctx.config.megatron_config ≡ resumed m.ctx.run_state
  goes_on = sym (ap resumed read ∙ get_state-resumed _ _)

  recovers :
      (s : RunState)
      → s ≡ m.ctx.run_state
      → is_recovering s ≡ false
      → IsSound (enter_recovering now m).1.ctx
  unfolding enter_recovering start_recovering
  recovers s e f = rw (ap is_recovering (sym e) ∙ f) (started_recovering-IsSound now m.ctx h)

  init_from-IsSound : (s : RunState) → s ≡ m.ctx.run_state → IsSound (init_from s now m).ctx
  unfolding init_from
  init_from-IsSound init e =
      set_run_state-IsSound starting
        (record m.ctx { node_pool_proxy = release_nodes now m.ctx.node_pool_proxy })
        (release_nodes-IsKept now m.ctx.node_pool_proxy h) tt
  init_from-IsSound recovering e = record {
    kept = h;
    driven = subst (λ s. Driven s (some stopping)) e tt;
    resumable = λ w. goes_on;
  }
  init_from-IsSound pending e = record {
    kept = h;
    driven = subst (λ s. Driven s m.ctx.recovery_phase) e tt;
    resumable = λ w. goes_on;
  }
  init_from-IsSound running e = record {
    kept = h;
    driven = subst (λ s. Driven s m.ctx.recovery_phase) e tt;
    resumable = λ w. goes_on;
  }
  init_from-IsSound starting e = recovers starting e refl
  init_from-IsSound hang e = recovers hang e refl
  init_from-IsSound loss_divergence e = recovers loss_divergence e refl
  init_from-IsSound fault e = recovers fault e refl
  init_from-IsSound fault_recover e = recovers fault_recover e refl
  init_from-IsSound complete e = recovers complete e refl

  restarts :
      (s : RunState)
      → s ≡ m.ctx.run_state
      → is_recovering s ≡ false
      → Begins
          (enter_recovering now m).1.ctx.run_state
          (enter_recovering now m).1.ctx.recovery_phase
  unfolding enter_recovering start_recovering set_run_state
  restarts s e f = rw (ap is_recovering (sym e) ∙ f) tt

  init_from-Begins :
      (s : RunState)
      → s ≡ m.ctx.run_state
      → Begins (init_from s now m).ctx.run_state (init_from s now m).ctx.recovery_phase
  unfolding init_from set_run_state
  init_from-Begins init e = tt
  init_from-Begins recovering e = subst (λ s. Begins s (some stopping)) e tt
  init_from-Begins pending e = subst (λ s. Begins s m.ctx.recovery_phase) e tt
  init_from-Begins running e =
      let never : pending ≡ running =
        ap resumed (e ∙ read)
        ∙ get_state-resumed m.ctx.state_file m.ctx.config.megatron_config
        ∙ sym (e ∙ read) in
      cc
  init_from-Begins starting e = restarts starting e refl
  init_from-Begins hang e = restarts hang e refl
  init_from-Begins loss_divergence e = restarts loss_divergence e refl
  init_from-Begins fault e = restarts fault e refl
  init_from-Begins fault_recover e = restarts fault_recover e refl
  init_from-Begins complete e = restarts complete e refl

  -- Whatever the state file holds, the job begins soundly: where its state was read from the file and
  -- the pool follows its rules, it is then starting, pending or recovering with a phase, the pool
  -- follows its rules still, and a restart goes on from its state where the state file can be
  -- written.
  pub init_state-Begins :
      IsSound (init_state now m).ctx
      × Begins (init_state now m).ctx.run_state (init_state now m).ctx.recovery_phase
  unfolding init_state
  init_state-Begins =
      (init_from-IsSound m.ctx.run_state refl, init_from-Begins m.ctx.run_state refl)
