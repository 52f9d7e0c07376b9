-- ===== src/Runtime/Machine/Restarts.antt =====
-- When the machine stops and starts the job.
use cluster_manager_das.Prelude.{
  ℕ, String, Bool, true, false, ◌==◌, List, Option, none, some, ◌≡◌, ◌≢◌, refl, ap, ◌∙◌, is_empty,
  Bool-cases, inl, inr, ◌⊎◌, arith,
}
use cluster_manager_das.Runtime.RunState.{
  RunState, init, starting, pending, running, hang, loss_divergence, recovering, fault,
  fault_recover, complete, get_state,
}
use cluster_manager_das.Runtime.Proxy.{FaultReport, on_snapshot, add_current_snapshot_param}
use cluster_manager_das.Runtime.Context.{
  Payload, RuntimeContext, stopping, restarting, set_run_state, reset_retry,
}
use cluster_manager_das.Runtime.Machine.Sound.{set_state_lem}
use cluster_manager_das.Runtime.Machine.Tables.{handler_of, state_handler, common_handler}
use cluster_manager_das.Runtime.Machine.{
  dispatch_to, dispatch, dispatch_with_trace, add_trace, add_current_trace, on_signal, on_event,
  event_to_signal, signal_of, new_trace, find_signal, on_started, on_stopped, note_started,
  note_stopped, next_action, no_payload,
}
use cluster_manager_das.Runtime.Machine.State.{
  JobCommand, no_command, stop_training, start_training, Signal, stop_success, start_success,
  recovery_stop_ok, recovery_start_ok, node_abnormal, job_release, log_running, log_hang, log_loss,
  log_inf, log_exit, log_timeout, log_iter, Handler, handle_node_abnormal, handle_job_release,
  Source, log_monitor, nhc_monitor, other_source, Event, JobStateMachine, TraceEntry,
}
use cluster_manager_das.Runtime.Machine.Handlers.{
  is_recovering, start_recovering, enter_recovering, run_handler, abnormal_of, note,
}

add_trace_ctx : (o : Option TraceEntry) (m : JobStateMachine) → (add_trace o m).ctx ≡ m.ctx
unfolding add_trace
add_trace_ctx none m = refl
add_trace_ctx (some t) m = refl

next_of :
    (m : JobStateMachine)
    → m.ctx.run_state ≡ recovering
    → m.ctx.recovery_phase ≡ some restarting
    → next_action m ≡ start_training
unfolding next_action
next_of m s p = rw (next_action, s, p) refl

handler_node_abnormal : (s : RunState) → handler_of s node_abnormal ≡ some handle_node_abnormal
unfolding handler_of state_handler common_handler
handler_node_abnormal init = refl
handler_node_abnormal starting = refl
handler_node_abnormal pending = refl
handler_node_abnormal running = refl
handler_node_abnormal hang = refl
handler_node_abnormal loss_divergence = refl
handler_node_abnormal recovering = refl
handler_node_abnormal fault = refl
handler_node_abnormal fault_recover = refl
handler_node_abnormal complete = refl

add_trace_alerts : (o : Option TraceEntry) (m : JobStateMachine) → (add_trace o m).alerts ≡ m.alerts
unfolding add_trace
add_trace_alerts none m = refl
add_trace_alerts (some t) m = refl

-- The answer, the context and the alerts after a signal are those of its handler.
pub dispatched :
    (raises : FaultReport → Bool) (now : ℕ) (source : Source) (signal : Signal) (payload : Payload)
    (m : JobStateMachine) (h : Handler)
    → handler_of m.ctx.run_state signal ≡ some h
    → (o : Option TraceEntry) × ((dispatch_with_trace raises now source signal payload m).0
        ≡ (run_handler raises now h payload (record m { current_trace = o })).0)
      × ((dispatch_with_trace raises now source signal payload m).1.ctx
          ≡ (run_handler raises now h payload (record m { current_trace = o })).1.ctx)
      × ((dispatch_with_trace raises now source signal payload m).1.alerts
          ≡ (run_handler raises now h payload (record m { current_trace = o })).1.alerts)
unfolding dispatch_with_trace dispatch dispatch_to add_current_trace
dispatched raises now source signal payload m h e = (
  some (record (new_trace now source signal m) { handler = some h }),
  rw e refl,
  rw e (add_trace_ctx _ _),
  rw e (add_trace_alerts _ _),
)

module _ (raises : FaultReport → Bool) (now : ℕ) (m : JobStateMachine)
    (recovers : m.ctx.run_state ≡ recovering) where
  -- After a stop a recovering job is still recovering, in the phase in which it is to start.
  stopped_lem :
      ((on_stopped raises now m).0 ≡ start_training)
      × ((on_stopped raises now m).1.ctx.run_state ≡ recovering)
      × ((on_stopped raises now m).1.ctx.recovery_phase ≡ some restarting)
  unfolding on_stopped note_stopped handler_of state_handler run_handler
  stopped_lem =
      let (o, command, context, _) =
        dispatched raises now other_source stop_success no_payload (note_stopped now m)
          recovery_stop_ok (ap (λ s. handler_of s stop_success) recovers) in
      (command, ap (λ c. c.run_state) context ∙ recovers, ap (λ c. c.recovery_phase) context)

  started_lem :
      ((on_started raises now m).0 ≡ no_command)
      × ((on_started raises now m).1.ctx.run_state ≡ pending)
      × ((on_started raises now m).1.ctx.retry_info ≡ reset_retry)
  unfolding on_started note_started handler_of state_handler run_handler set_run_state
  started_lem =
      let (o, command, context, _) =
        dispatched raises now other_source start_success no_payload (note_started now m)
          recovery_start_ok (ap (λ s. handler_of s start_success) recovers) in
      (command, ap (λ c. c.run_state) context, ap (λ c. c.retry_info) context)

-- Once a recovering job has stopped, it is to start, also by `next_action`, and once it has started
-- it is pending with its retries forgotten, whatever happens to the blacklist's reports.
pub recovery_ends :
    (raises : FaultReport → Bool) (now later : ℕ) (m : JobStateMachine)
    → m.ctx.run_state ≡ recovering
    → ((on_stopped raises now m).0 ≡ start_training)
      × (next_action (on_stopped raises now m).1 ≡ start_training)
      × ((on_started raises later (on_stopped raises now m).1).0 ≡ no_command)
      × ((on_started raises later (on_stopped raises now m).1).1.ctx.run_state ≡ pending)
      × ((on_started raises later (on_stopped raises now m).1).1.ctx.retry_info ≡ reset_retry)
recovery_ends raises now later m recovers =
    let a = stopped_lem raises now m recovers in
    let b = started_lem raises later (on_stopped raises now m).1 a.1 in
    (a.0, next_of (on_stopped raises now m).1 a.1 a.2, b.0, b.1, b.2)

-- An event never counts as the feedback of a start or a stop.
is_feedback : Option Signal → Bool
is_feedback (some start_success) = true
is_feedback (some stop_success) = true
is_feedback _ = false

signal_of_lem : (s : Source) (kind : String) → is_feedback (signal_of s kind) ≡ false
unfolding is_feedback signal_of find_signal
signal_of_lem log_monitor kind = ground arith
signal_of_lem nhc_monitor kind = ground arith
signal_of_lem other_source kind = refl

enter_recovering_again :
    (now : ℕ) (m : JobStateMachine)
    → is_recovering m.ctx.run_state ≡ true
    → ((enter_recovering now m).0 ≡ no_command) × ((enter_recovering now m).1.ctx ≡ m.ctx)
unfolding enter_recovering
enter_recovering_again now m e = (rw e refl, rw e refl)

abnormal_of_recovering :
    (now : ℕ) (nodes : List String) (m : JobStateMachine)
    → is_recovering m.ctx.run_state ≡ true
    → ((abnormal_of now nodes m).0 ≡ no_command) × ((abnormal_of now nodes m).1.ctx ≡ m.ctx)
unfolding abnormal_of enter_recovering
abnormal_of_recovering now nodes m e = elim (Bool-cases (is_empty nodes)) [
  | inl n ↦ (rw n refl, rw n refl)
  | inr n ↦ (rw (n, e) refl, rw (n, e) refl)
]

-- The handler of a signal while the job recovers.
recovering_handler :
    (signal : Signal)
    → is_feedback (some signal) ≡ false
    → (handler_of recovering signal ≡ none)
      ⊎ ((handler_of recovering signal ≡ some handle_node_abnormal)
          ⊎ (handler_of recovering signal ≡ some handle_job_release))
unfolding handler_of state_handler common_handler is_feedback
recovering_handler start_success f = cc
recovering_handler stop_success f = cc
recovering_handler log_running f = inl refl
recovering_handler log_hang f = inl refl
recovering_handler log_loss f = inl refl
recovering_handler log_inf f = inl refl
recovering_handler log_exit f = inl refl
recovering_handler log_timeout f = inl refl
recovering_handler log_iter f = inl refl
recovering_handler node_abnormal f = inr (inl refl)
recovering_handler job_release f = inr (inr refl)

-- What an answer is that stops a job whose context was `c`, so that it recovers.
pub record IsStopping (now : ℕ) (c : RuntimeContext) (r : JobCommand × JobStateMachine)
    : Type 0 where
  pub command : r.0 ≡ stop_training
  pub state : r.1.ctx.run_state ≡ recovering
  pub phase : r.1.ctx.recovery_phase ≡ some stopping
  pub resumable :
      c.state_writable ≡ true → get_state r.1.ctx.state_file c.config.megatron_config ≡ recovering
  pub stopped_at :
      r.1.ctx.node_pool_proxy.current_snapshot
      ≡ on_snapshot (λ s. record s { stop_time = some now }) c.node_pool_proxy.current_snapshot
  pub same_pool : r.1.ctx.node_pool_proxy.node_pool ≡ c.node_pool_proxy.node_pool

is_recovering-other : (s : RunState) → s ≢ recovering → is_recovering s ≡ false
unfolding is_recovering
is_recovering-other init n = refl
is_recovering-other starting n = refl
is_recovering-other pending n = refl
is_recovering-other running n = refl
is_recovering-other hang n = refl
is_recovering-other loss_divergence n = refl
is_recovering-other recovering n = absurd (n refl)
is_recovering-other fault n = refl
is_recovering-other fault_recover n = refl
is_recovering-other complete n = refl

IsStopping-started :
    (now : ℕ) (c : RuntimeContext) (r : JobCommand × JobStateMachine)
    → r.0 ≡ stop_training
    → r.1.ctx ≡ start_recovering now c
    → IsStopping now c r
unfolding start_recovering set_run_state add_current_snapshot_param
IsStopping-started now c r command e = record {
  command = command;
  state = ap (λ d. d.run_state) e;
  phase = ap (λ d. d.recovery_phase) e;
  resumable = λ w.
      ap (λ d. get_state d.state_file c.config.megatron_config) e
      ∙ set_state_lem c.state_writable recovering c.config.megatron_config c.state_file w;
  stopped_at = ap (λ d. d.node_pool_proxy.current_snapshot) e;
  same_pool = ap (λ d. d.node_pool_proxy.node_pool) e;
}

module _ (raises : FaultReport → Bool) (now : ℕ) (e : Event) (m : JobStateMachine) where
  on_signal_recovering :
      (o : Option Signal)
      → is_feedback o ≡ false
      → m.ctx.run_state ≡ recovering
      → ((on_signal raises now e o m).0 ≡ no_command) × ((on_signal raises now e o m).1.ctx ≡ m.ctx)
  unfolding on_signal run_handler enter_recovering is_recovering abnormal_of note
      dispatch_with_trace dispatch dispatch_to add_current_trace
  on_signal_recovering none f recovers = (refl, refl)
  on_signal_recovering (some signal) f recovers =
      let stays : is_recovering m.ctx.run_state ≡ true = ap is_recovering recovers in
      let at = ap (λ s. handler_of s signal) recovers in
      elim (recovering_handler signal f) [
        | inl h ↦ (rw (at ∙ h) refl, unfold add_trace in rw (at ∙ h) refl)
        | inr (inl h) ↦ (
          rw (at ∙ h) (abnormal_of_recovering now e.payload.abnormal_nodes _ stays).0,
          rw (at ∙ h)
              (add_trace_ctx _ _ ∙ (abnormal_of_recovering now e.payload.abnormal_nodes _ stays).1),
        )
        | inr (inr h) ↦ (
          rw (at ∙ h) (enter_recovering_again now _ stays).0,
          rw (at ∙ h) (add_trace_ctx _ _ ∙ (enter_recovering_again now _ stays).1),
        )
      ]

  -- While the job recovers, no event gives a command or changes the job.
  pub on_event_recovering :
      m.ctx.run_state ≡ recovering
      → ((on_event raises now e m).0 ≡ no_command) × ((on_event raises now e m).1.ctx ≡ m.ctx)
  unfolding on_event event_to_signal
  on_event_recovering recovers =
      on_signal_recovering (event_to_signal e) (signal_of_lem e.source e.kind) recovers

  -- Nodes that the health check finds abnormal stop a job that does not recover already, whatever
  -- its state: the job is then recovering, in the phase in which it is to stop, a restart finds it
  -- recovering where the state file can be written, the snapshot has the time of the stop, and the
  -- pool is as it was.
  pub on_event_node_abnormal :
      e.source ≡ nhc_monitor
      → (e.kind == "job_release") ≡ false
      → is_empty e.payload.abnormal_nodes ≡ false
      → m.ctx.run_state ≢ recovering
      → IsStopping now m.ctx (on_event raises now e m)
  unfolding on_event on_signal event_to_signal signal_of run_handler abnormal_of enter_recovering
  on_event_node_abnormal from kind some_node other =
      let (o, command, context, _) =
        dispatched raises now e.source node_abnormal e.payload m handle_node_abnormal
          (handler_node_abnormal m.ctx.run_state) in
      let signal : event_to_signal e ≡ some node_abnormal =
        ap (λ s. signal_of s e.kind) from ∙ rw kind refl in
      let run = ap (λ o. on_signal raises now e o m) signal in
      let still = is_recovering-other m.ctx.run_state other in
      IsStopping-started now m.ctx _ (ap (λ r. r.0) run ∙ command ∙ rw (some_node, still) refl)
        (ap (λ r. r.1.ctx) run ∙ context ∙ rw (some_node, still) refl)
