-- ===== src/Runtime/Machine/Exits.antt =====
-- A job that its log reports as gone is restarted only after its fault was handled.
use cluster_manager_das.Prelude.{
  ℕ, String, Bool, true, false, ◌||◌, ◌&&◌, ◌==◌, ◌∷◌, Option, none, some, ◌≡◌, refl, ap, ◌∙◌,
  arith, Bool-cases, ◌⊎◌, inl, inr,
}
use cluster_manager_das.Prelude.Exec.{Result, ok, err}
use cluster_manager_das.Prelude.Names.Strip.{strip}
use cluster_manager_das.Runtime.Proxy.{FaultReport, NodePoolProxy}
use cluster_manager_das.Runtime.Context.{
  Value, text, FaultData, Payload, RuntimeContext, stopping, get_or, locate, answered,
  mark_node_number, handle_runtime_fault,
}
use cluster_manager_das.Runtime.Machine.State.{
  JobCommand, no_command, stop_training, Reason, no_host, unknown_exit, manual_alert,
  JobStateMachine, TraceEntry, Event, log_monitor, log_exit, handle_log_exit,
}
use cluster_manager_das.Runtime.Machine.Handlers.{
  call_handle, require_manual_intervention, recover_if, exit_of_host, handle_exit, data_or_empty,
  is_prte, is_recovering, enter_recovering, start_recovering, run_handler,
}
use cluster_manager_das.Runtime.RunState.{running, recovering}
use cluster_manager_das.Runtime.Machine.Tables.{handler_of, state_handler}
use cluster_manager_das.Runtime.Machine.{
  on_event, on_signal, event_to_signal, signal_of, find_signal,
}
use cluster_manager_das.Runtime.Machine.Restarts.{dispatched}

-- The fault that the data of an exit names, by its description and its kind: the host of a root
-- cause, a process of the launcher, or a rank or node.
pub data Names (d : FaultData) : String → String → Type 0 where
  root_host :
      (get_or "" d.fault_type == "root_cause") ≡ true
      → (strip (get_or "" d.host) == "") ≡ false
      → Names d (strip (get_or "" d.host)) "node"
  launcher_process :
      (get_or "" d.fault_type == "proc") ≡ true
      → is_prte d.runtime ≡ true
      → Names d (get_or "" d.fault_info) "mpi_rank"
  rank_or_node :
      (get_or "" d.fault_type == "global_rank"
          || get_or "" d.fault_type == "rank"
          || get_or "" d.fault_type == "node")
        ≡ true
      → Names d (get_or "" d.fault_info) (get_or "" d.fault_type)

-- The job is stopped, to recover, and the fault that the payload names was handled.
pub record IsRestarted (raises : FaultReport → Bool) (payload : Payload) (c : RuntimeContext)
    (r : JobCommand × JobStateMachine) : Type 0 where
  pub command : r.0 ≡ stop_training
  pub state : r.1.ctx.run_state ≡ recovering
  pub phase : r.1.ctx.recovery_phase ≡ some stopping
  pub info : String
  pub fault_type : String
  pub named : Names (data_or_empty payload.data_of) info fault_type
  pub handled : (handle_runtime_fault raises (text info) fault_type payload c).0 ≡ true

-- The job is left as it runs, and an operator is told why.
pub record IsReported (m : JobStateMachine) (r : JobCommand × JobStateMachine) : Type 0 where
  pub command : r.0 ≡ no_command
  pub state : r.1.ctx.run_state ≡ running
  pub why : Reason
  pub alerted : r.1.alerts ≡ manual_alert why ∷ m.alerts

answered_state :
    (r : Result (Unit {0}) × NodePoolProxy) (c : RuntimeContext)
    → (answered r c).1.run_state ≡ c.run_state
unfolding answered
answered_state (ok u, x) c = refl
answered_state (err e, x) c = refl

module _ (raises : FaultReport → Bool) (now : ℕ) (payload : Payload) where
  mark_node_number_state :
      (o : Option ℕ) (c : RuntimeContext)
      → (mark_node_number raises payload o c).1.run_state ≡ c.run_state
  unfolding mark_node_number
  mark_node_number_state none c = refl
  mark_node_number_state (some n) c = answered_state _ c

  handle_runtime_fault_state :
      (info : Value) (fault_type : String) (c : RuntimeContext)
      → (handle_runtime_fault raises info fault_type payload c).1.run_state ≡ c.run_state
  unfolding handle_runtime_fault
  handle_runtime_fault_state info fault_type c =
      elim (Bool-cases
        (fault_type == "global_rank" || fault_type == "mpi_rank" || fault_type == "rank")) [
          | inl e ↦ rw e (mark_node_number_state (locate c.config fault_type info) c)
          | inr e ↦ rw e (elim (Bool-cases (fault_type == "node")) [
            | inl n ↦ rw n (answered_state _ c)
            | inr n ↦ rw n refl
          ])
        ]

  -- Either the job is stopped for the fault that is named, or an operator is told.
  abbrev Ends : JobStateMachine → JobCommand × JobStateMachine → Type 0
  Ends m r = IsRestarted raises payload m.ctx r ⊎ IsReported m r

  manual-Ends :
      (why : Reason) (m : JobStateMachine)
      → m.ctx.run_state ≡ running
      → Ends m (require_manual_intervention why m)
  unfolding require_manual_intervention
  manual-Ends why m runs = inr (record { command = refl; state = runs; why = why; alerted = refl })

  recover_if_cases :
      (why : Reason) (info fault_type : String) (m : JobStateMachine) (c : RuntimeContext)
      (b : Bool)
      → Names (data_or_empty payload.data_of) info fault_type
      → c.run_state ≡ running
      → (handle_runtime_fault raises (text info) fault_type payload m.ctx).0 ≡ b
      → Ends m (recover_if now why (b, record m { ctx = c }))
  unfolding recover_if require_manual_intervention enter_recovering start_recovering
  recover_if_cases why info fault_type m c true named runs handled =
      let other : is_recovering c.run_state ≡ false = ap is_recovering runs ∙ refl in
      inl (record {
        command = rw other refl;
        state = rw other refl;
        phase = rw other refl;
        info = info;
        fault_type = fault_type;
        named = named;
        handled = handled;
      })
  recover_if_cases why info fault_type m c false named runs handled =
      inr (record { command = refl; state = runs; why = why; alerted = refl })

  recover_if-Ends :
      (why : Reason) (info fault_type : String) (m : JobStateMachine)
      → Names (data_or_empty payload.data_of) info fault_type
      → m.ctx.run_state ≡ running
      → Ends m (recover_if now why (call_handle raises (text info) fault_type payload m))
  unfolding call_handle
  recover_if-Ends why info fault_type m named runs =
      let (b, c) = handle_runtime_fault raises (text info) fault_type payload m.ctx in
      recover_if_cases why info fault_type m c b named
        (handle_runtime_fault_state (text info) fault_type m.ctx ∙ runs) refl

  handle_exit-Ends :
      (m : JobStateMachine) → m.ctx.run_state ≡ running → Ends m (handle_exit raises now payload m)
  unfolding handle_exit exit_of_host
  handle_exit-Ends m runs =
      let d = data_or_empty payload.data_of in
      let t = get_or "" d.fault_type in
      elim (Bool-cases (t == "root_cause")) [
        | inl e ↦ rw e (elim (Bool-cases (strip (get_or "" d.host) == "")) [
          | inl h ↦ rw h (manual-Ends no_host m runs)
          | inr h ↦ rw h (recover_if-Ends _ _ _ m (root_host e h) runs)
        ])
        | inr e ↦ rw e (elim (Bool-cases (t == "proc" && is_prte d.runtime)) [
          | inl p ↦
              rw p (recover_if-Ends _ _ _ m (launcher_process (ground arith) (ground arith)) runs)
          | inr p ↦ rw p (elim (Bool-cases (t == "global_rank" || t == "rank" || t == "node")) [
            | inl r ↦ rw r (recover_if-Ends _ _ _ m (rank_or_node r) runs)
            | inr r ↦ rw r (manual-Ends (unknown_exit t) m runs)
          ])
        ])
      ]

-- A running job whose log says that it exited is either stopped, to recover, where the fault that the
-- payload names (the host of a root cause, a process of the launcher, a rank or a node) was handled,
-- or it gets no command, still counts as running, and an operator is told why.
pub on_event_exit :
    (raises : FaultReport → Bool) (now : ℕ) (e : Event) (m : JobStateMachine)
    → e.source ≡ log_monitor
    → e.kind ≡ "exit"
    → m.ctx.run_state ≡ running
    → IsRestarted raises e.payload m.ctx (on_event raises now e m)
      ⊎ IsReported m (on_event raises now e m)
unfolding on_event on_signal event_to_signal signal_of find_signal run_handler handler_of
    state_handler
on_event_exit raises now e m from kind runs =
    let (o, command, context, alerts) =
      dispatched raises now e.source log_exit e.payload m handle_log_exit
        (ap (λ s. handler_of s log_exit) runs) in
    let signal : event_to_signal e ≡ some log_exit =
      ap (λ s. signal_of s e.kind) from ∙ ap (signal_of log_monitor) kind in
    let run = ap (λ o. on_signal raises now e o m) signal in
    moved (ap (λ r. r.0) run ∙ command) (ap (λ r. r.1.ctx) run ∙ context)
      (ap (λ r. r.1.alerts) run ∙ alerts)
      (unchanged (handle_exit-Ends raises now e.payload (record m { current_trace = o }) runs))
  where
    unchanged :
        {o : Option TraceEntry} {r : JobCommand × JobStateMachine}
        → Ends raises now e.payload (record m { current_trace = o }) r
        → IsRestarted raises e.payload m.ctx r ⊎ IsReported m r
    unchanged (inl h) = inl h
    unchanged (inr h) =
        inr (record { command = h.command; state = h.state; why = h.why; alerted = h.alerted })

    moved :
        {q r : JobCommand × JobStateMachine}
        → q.0 ≡ r.0
        → q.1.ctx ≡ r.1.ctx
        → q.1.alerts ≡ r.1.alerts
        → (IsRestarted raises e.payload m.ctx r ⊎ IsReported m r)
        → IsRestarted raises e.payload m.ctx q ⊎ IsReported m q
    moved a b c (inl h) = inl (record {
      command = a ∙ h.command;
      state = ap (λ d. d.run_state) b ∙ h.state;
      phase = ap (λ d. d.recovery_phase) b ∙ h.phase;
      info = h.info;
      fault_type = h.fault_type;
      named = h.named;
      handled = h.handled;
    })
    moved a b c (inr h) = inr (record {
      command = a ∙ h.command;
      state = ap (λ d. d.run_state) b ∙ h.state;
      why = h.why;
      alerted = c ∙ h.alerted;
    })
