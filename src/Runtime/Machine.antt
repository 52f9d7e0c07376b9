-- ===== src/Runtime/Machine.antt =====
-- job_state_machine.py: the state machine of the job. `Handlers` has the transitions and the handling
-- of faults, `Tables` the handlers of each state, this file the dispatch of signals and the interface to the manager.
pub mod State
pub mod Handlers
pub mod Tables
pub mod Sound
pub mod Steps
pub mod Restarts
pub mod Exits
use cluster_manager_das.Prelude.{
  ℕ, suc, String, Bool, true, false, ◌==◌, List, [], ◌∷◌, ◌++◌, Option, none, some, length, ltb,
  if◌then◌else◌,
}
use cluster_manager_das.Runtime.RunState.{
  RunState, init, starting, pending, running, hang, loss_divergence, recovering, fault,
  fault_recover, complete,
}
use cluster_manager_das.Runtime.Proxy.{
  FaultReport, NodePoolProxy, add_current_snapshot_param, release_nodes,
}
use cluster_manager_das.Runtime.Context.{
  Payload, RuntimeContext, RecoveryPhase, stopping, restarting, set_run_state,
}
use cluster_manager_das.Runtime.Machine.State.{
  JobCommand, start_training, stop_training, no_command, Signal, start_success, stop_success,
  log_running, log_hang, log_loss, log_inf, log_exit, log_timeout, log_iter, node_abnormal,
  job_release, Handler, Source, log_monitor, nhc_monitor, other_source, Event, TraceEntry,
  JobStateMachine, no_handler, to_pending, to_running, pending_timeout, to_hang, to_loss, to_inf,
  to_iter, handle_log_exit, recovery_stop_ok, recovery_start_ok, handle_node_abnormal,
  handle_job_release,
}
use cluster_manager_das.Runtime.Machine.Tables.{handler_of}
use cluster_manager_das.Runtime.Machine.Handlers.{on_ctx, note, enter_recovering, run_handler}

-- A change of the current trace, where there is one.
abbrev pub on_trace : (TraceEntry → TraceEntry) → JobStateMachine → JobStateMachine
on_trace change m = record m {
  current_trace = elim m.current_trace [ none ↦ none | some t ↦ some (change t) ];
}

-- `_dispatch`
unfoldable pub dispatch_to :
    (FaultReport → Bool)
    → ℕ
    → Option Handler
    → Signal
    → Payload
    → JobStateMachine
    → JobCommand × JobStateMachine
unfolding run_handler note
dispatch_to raises now none signal payload m =
    (no_command, note (no_handler m.ctx.run_state signal) m)
dispatch_to raises now (some h) signal payload m =
    let (command, q) =
      run_handler raises now h payload (on_trace (λ t. record t { handler = some h }) m) in
    (command, on_trace (λ t. record t { next_command = some command }) q)

unfoldable pub dispatch :
    (FaultReport → Bool) → ℕ → Signal → Payload → JobStateMachine → JobCommand × JobStateMachine
unfolding dispatch_to handler_of
dispatch raises now signal payload m =
    dispatch_to raises now (handler_of m.ctx.run_state signal) signal payload m

-- `_flow_trace.pop(0)` where the list is longer than 30.
unfoldable pub bounded : List TraceEntry → List TraceEntry
bounded [] = []
bounded (t ∷ ts) = if ltb 30 (length (t ∷ ts)) then ts else t ∷ ts

unfoldable pub add_trace : Option TraceEntry → JobStateMachine → JobStateMachine
unfolding bounded
add_trace none m = m
add_trace (some t) m = record m {
  flow_trace = bounded (m.flow_trace ++ record t { current_state = m.ctx.run_state } ∷ []);
  current_trace = none;
}

-- `_add_current_trace`, with the state after the signal, and the end of the dispatch.
unfoldable pub add_current_trace : JobStateMachine → JobStateMachine
unfolding add_trace
add_current_trace m = add_trace m.current_trace m

-- The trace that a signal begins.
abbrev pub new_trace : ℕ → Source → Signal → JobStateMachine → TraceEntry
new_trace now source signal m = record {
  timestamp = now;
  before_state = m.ctx.run_state;
  current_state = m.ctx.run_state;
  event = source;
  signal = signal;
  handler = none;
  next_command = none;
  extra = [];
}

-- `_dispatch_with_trace`. No handler here raises: the proxy's exceptions end in
-- `handle_runtime_fault`, and writing the state file catches its own.
unfoldable pub dispatch_with_trace :
    (FaultReport → Bool)
    → ℕ
    → Source
    → Signal
    → Payload
    → JobStateMachine
    → JobCommand × JobStateMachine
unfolding dispatch add_current_trace
dispatch_with_trace raises now source signal payload m =
    let (command, q) =
      dispatch raises now signal payload
        (record m { current_trace = some (new_trace now source signal m) }) in
    (command, add_current_trace q)

abbrev log_signals : List (String × Signal)
log_signals =
    ("hang", log_hang)
    ∷ ("exit", log_exit)
    ∷ ("loss", log_loss)
    ∷ ("normal", log_running)
    ∷ ("timeout", log_timeout)
    ∷ ("iter", log_iter)
    ∷ ("inf", log_inf)
    ∷ []

unfoldable pub find_signal : String → List (String × Signal) → Option Signal
find_signal kind [] = none
find_signal kind ((k, s) ∷ rest) =
    let found = find_signal kind rest in if k == kind then some s else found

unfoldable pub signal_of : Source → String → Option Signal
unfolding find_signal
signal_of log_monitor kind = find_signal kind log_signals
signal_of nhc_monitor kind = some (if kind == "job_release" then job_release else node_abnormal)
signal_of other_source kind = none

-- `_event_to_signal`
unfoldable pub event_to_signal : Event → Option Signal
unfolding signal_of
event_to_signal e = signal_of e.source e.kind

unfoldable pub on_signal :
    (FaultReport → Bool)
    → ℕ
    → Event
    → Option Signal
    → JobStateMachine
    → JobCommand × JobStateMachine
unfolding dispatch_with_trace
on_signal raises now e none m = (no_command, m)
on_signal raises now e (some signal) m = dispatch_with_trace raises now e.source signal e.payload m

-- `on_event`
unfoldable pub on_event :
    (FaultReport → Bool) → ℕ → Event → JobStateMachine → JobCommand × JobStateMachine
unfolding event_to_signal on_signal
on_event raises now e m = on_signal raises now e (event_to_signal e) m

abbrev pub no_payload : Payload
no_payload = record {
  data_of = none;
  cur_iter = none;
  timestamp = none;
  is_ckpt = false;
  abnormal_nodes = [];
}

unfoldable pub note_started : ℕ → JobStateMachine → JobStateMachine
note_started now m =
    on_ctx
      (λ c. record c {
        node_pool_proxy =
            add_current_snapshot_param (λ s. record s { start_time = some now }) c.node_pool_proxy;
      })
      (record m { start_time = some now })

-- `on_train_success` with "start"
unfoldable pub on_started :
    (FaultReport → Bool) → ℕ → JobStateMachine → JobCommand × JobStateMachine
unfolding dispatch_with_trace note_started
on_started raises now m =
    dispatch_with_trace raises now other_source start_success no_payload (note_started now m)

unfoldable pub note_stopped : ℕ → JobStateMachine → JobStateMachine
note_stopped now m =
    on_ctx
      (λ c. record c {
        node_pool_proxy =
            add_current_snapshot_param (λ s. record s { stop_time = some now }) c.node_pool_proxy;
      })
      (record m { stop_time = some now })

-- `on_train_success` with another action, which is "stop"
unfoldable pub on_stopped :
    (FaultReport → Bool) → ℕ → JobStateMachine → JobCommand × JobStateMachine
unfolding dispatch_with_trace note_stopped
on_stopped raises now m =
    dispatch_with_trace raises now other_source stop_success no_payload (note_stopped now m)

abbrev phase_command : Option RecoveryPhase → JobCommand
phase_command none = no_command
phase_command (some stopping) = stop_training
phase_command (some restarting) = start_training

-- `next_action`
unfoldable pub next_action : JobStateMachine → JobCommand
next_action m = elim m.ctx.run_state [
  | starting ↦ start_training
  | recovering ↦ phase_command m.ctx.recovery_phase
  | _ ↦ no_command
]

unfoldable pub init_from : RunState → ℕ → JobStateMachine → JobStateMachine
unfolding enter_recovering
init_from init now m =
    on_ctx
      (λ c.
        set_run_state starting (record c { node_pool_proxy = release_nodes now c.node_pool_proxy }))
      m
init_from recovering now m = on_ctx (λ c. record c { recovery_phase = some stopping }) m
init_from pending now m = m
init_from running now m = m
init_from _ now m = (enter_recovering now m).1

-- `init_state`; the command that `_to_recovering` gives is dropped.
unfoldable pub init_state : ℕ → JobStateMachine → JobStateMachine
unfolding init_from
init_state now m = init_from m.ctx.run_state now m
