-- ===== src/Runtime/Machine/Handlers.antt =====
-- job_state_machine.py: the handlers of the signals. A handler gives the next command.
use cluster_manager_das.Prelude.{
  ℕ, String, Bool, true, false, ◌&&◌, ◌||◌, ◌==◌, List, [], ◌∷◌, ◌++◌, Option, none, some, is_empty,
  if◌then◌else◌,
}
use cluster_manager_das.Prelude.Names.Strip.{strip}
use cluster_manager_das.Runtime.RunState.{RunState, pending, running, recovering}
use cluster_manager_das.Runtime.Proxy.{FaultReport, NodeSnapshot, add_current_snapshot_param}
use cluster_manager_das.Runtime.Context.{
  Value, text, FaultData, Payload, RuntimeContext, stopping, restarting, reset_retry, set_run_state,
  get_or, handle_runtime_fault,
}
use cluster_manager_das.Runtime.Machine.State.{
  JobCommand, start_training, stop_training, no_command, Handler, to_pending, to_running,
  pending_timeout, to_hang, to_loss, to_inf, to_iter, handle_log_exit, recovery_stop_ok,
  recovery_start_ok, handle_node_abnormal, handle_job_release, Reason, no_host,
  host_not_blacklisted, prte_not_located, exit_not_located, unknown_exit, Alert, hang_alert,
  loss_alert, inf_alert, manual_alert, Note, manual_note, JobStateMachine,
}

abbrev pub on_ctx : (RuntimeContext → RuntimeContext) → JobStateMachine → JobStateMachine
on_ctx change m = record m { ctx = change m.ctx }

-- `self.notify.send_feishu_alert`: a failure of the service is logged and never raised.
abbrev pub send : Alert → JobStateMachine → JobStateMachine
send a m = record m { alerts = a ∷ m.alerts }

-- `_add_trace_extra`
unfoldable pub note : Note → JobStateMachine → JobStateMachine
note n m = record m {
  current_trace = elim m.current_trace [
    | none ↦ none
    | some t ↦ some (record t { extra = t.extra ++ n ∷ [] })
  ];
}

-- `_require_manual_intervention`
unfoldable pub require_manual_intervention : Reason → JobStateMachine → JobCommand × JobStateMachine
unfolding note
require_manual_intervention why m = (no_command, send (manual_alert why) (note (manual_note why) m))

-- `_to_recovering` from a state that is not RECOVERING
unfoldable pub start_recovering : ℕ → RuntimeContext → RuntimeContext
unfolding set_run_state
start_recovering now c =
    record (set_run_state recovering (record c {
      node_pool_proxy =
          add_current_snapshot_param (λ s. record s { stop_time = some now }) c.node_pool_proxy;
    })) { recovery_phase = some stopping }

unfoldable pub is_recovering : RunState → Bool
is_recovering recovering = true
is_recovering _ = false

-- `_to_recovering`
unfoldable pub enter_recovering : ℕ → JobStateMachine → JobCommand × JobStateMachine
unfolding start_recovering is_recovering
enter_recovering now m =
    if is_recovering m.ctx.run_state
    then (no_command, m)
    else (stop_training, on_ctx (start_recovering now) (record m { stop_time = some now }))

-- `ctx.handle_runtime_fault`, called by the machine.
unfoldable pub call_handle :
    (FaultReport → Bool) → Value → String → Payload → JobStateMachine → Bool × JobStateMachine
call_handle raises info fault_type reason m =
    let (handled, c) = handle_runtime_fault raises info fault_type reason m.ctx in
    (handled, record m { ctx = c })

abbrev rank_or_empty : Option Value → Value
rank_or_empty none = text ""
rank_or_empty (some v) = v

-- Whether `data` has the key "type", and its rank: `"type" in data`, `data.get("rank", "")`.
abbrev pub typed_rank : Option FaultData → Option Value
typed_rank none = none
typed_rank (some d) = elim d.fault_type [ none ↦ none | some t ↦ some (rank_or_empty d.rank) ]

-- The middle of `_to_loss` and `_to_inf`: the answer is not looked at.
unfoldable pub blame_rank :
    (FaultReport → Bool) → Option Value → Payload → JobStateMachine → JobStateMachine
unfolding call_handle
blame_rank raises none payload m = m
blame_rank raises (some rank) payload m = (call_handle raises rank "global_rank" payload m).1

-- `_to_loss` after its alert
unfoldable pub loss_of :
    (FaultReport → Bool)
    → ℕ
    → Option Value
    → Payload
    → JobStateMachine
    → JobCommand × JobStateMachine
unfolding blame_rank enter_recovering
loss_of raises now none payload m = (no_command, m)
loss_of raises now (some rank) payload m =
    enter_recovering now (blame_rank raises (some rank) payload m)

-- The last step of `_handle_log_exit`: the job recovers if its fault was handled.
unfoldable pub recover_if : ℕ → Reason → Bool × JobStateMachine → JobCommand × JobStateMachine
unfolding enter_recovering require_manual_intervention
recover_if now why (true, m) = enter_recovering now m
recover_if now why (false, m) = require_manual_intervention why m

abbrev no_data : FaultData
no_data = record {
  fault_type = none;
  rank = none;
  host = none;
  fault_info = none;
  runtime = none;
  message = none;
}

abbrev pub data_or_empty : Option FaultData → FaultData
data_or_empty none = no_data
data_or_empty (some d) = d

-- `_handle_log_exit` for a root cause that torchrun names
unfoldable pub exit_of_host :
    (FaultReport → Bool)
    → ℕ
    → String
    → Option Value
    → Payload
    → JobStateMachine
    → JobCommand × JobStateMachine
unfolding recover_if require_manual_intervention call_handle
exit_of_host raises now host rank payload m =
    if host == ""
    then require_manual_intervention no_host m
    else recover_if now (host_not_blacklisted host rank)
        (call_handle raises (text host) "node" payload m)

abbrev pub is_prte : Option String → Bool
is_prte none = false
is_prte (some r) = r == "prte"

-- `_handle_log_exit`
unfoldable pub handle_exit :
    (FaultReport → Bool) → ℕ → Payload → JobStateMachine → JobCommand × JobStateMachine
unfolding exit_of_host recover_if require_manual_intervention call_handle
handle_exit raises now payload m =
    let d = data_or_empty payload.data_of in
    let data_type = get_or "" d.fault_type in
    let fault_info = get_or "" d.fault_info in
    if data_type == "root_cause"
    then exit_of_host raises now (strip (get_or "" d.host)) d.rank payload m
    else if data_type == "proc" && is_prte d.runtime
    then recover_if now (prte_not_located fault_info)
        (call_handle raises (text fault_info) "mpi_rank" payload m)
    else if data_type == "global_rank" || data_type == "rank" || data_type == "node"
    then recover_if now (exit_not_located data_type fault_info)
        (call_handle raises (text fault_info) data_type payload m)
    else require_manual_intervention (unknown_exit data_type) m

-- The first iteration of a run, noted while the snapshot has none.
unfoldable pub note_first_of : Option NodeSnapshot → Payload → JobStateMachine → JobStateMachine
note_first_of none payload m = m
note_first_of (some s) payload m = elim s.first_iter [
  | some i ↦ m
  | none ↦ record m {
    first_iter_time = payload.timestamp;
    first_iter = payload.cur_iter;
    ctx = record m.ctx {
      node_pool_proxy =
          add_current_snapshot_param
            (λ t. record t { first_iter = payload.cur_iter; first_iter_time = payload.timestamp })
            m.ctx.node_pool_proxy;
    };
  }
]

unfoldable pub note_first : Payload → JobStateMachine → JobStateMachine
unfolding note_first_of
note_first payload m = note_first_of m.ctx.node_pool_proxy.current_snapshot payload m

unfoldable pub note_checkpoint : Payload → JobStateMachine → JobStateMachine
note_checkpoint payload m =
    if payload.is_ckpt
    then record m {
      last_ckpt_iter_time = payload.timestamp;
      last_ckpt_iter = payload.cur_iter;
      ctx = record m.ctx {
        node_pool_proxy =
            add_current_snapshot_param
              (λ t. record t {
                last_ckpt_iter = payload.cur_iter;
                last_ckpt_iter_time = payload.timestamp;
              })
              m.ctx.node_pool_proxy;
      };
    }
    else m

unfoldable pub note_last : Payload → JobStateMachine → JobStateMachine
note_last payload m = record m {
  last_iter_time = payload.timestamp;
  last_iter = payload.cur_iter;
  ctx = record m.ctx {
    node_pool_proxy =
        add_current_snapshot_param
          (λ t. record t { last_iter = payload.cur_iter; last_iter_time = payload.timestamp })
          m.ctx.node_pool_proxy;
  };
}

-- `_handle_node_abnormal`
unfoldable pub abnormal_of : ℕ → List String → JobStateMachine → JobCommand × JobStateMachine
unfolding enter_recovering
abnormal_of now nodes m = if is_empty nodes then (no_command, m) else enter_recovering now m

-- The handlers. The report of training metrics that `_to_running` sends is left out: it reads the
-- snapshots and changes none.
unfoldable pub run_handler :
    (FaultReport → Bool) → ℕ → Handler → Payload → JobStateMachine → JobCommand × JobStateMachine
unfolding set_run_state enter_recovering loss_of blame_rank handle_exit note_first note_checkpoint
    note_last abnormal_of
run_handler raises now to_pending payload m = (no_command, on_ctx (set_run_state pending) m)
run_handler raises now to_running payload m =
    (no_command, on_ctx (λ c. set_run_state running (record c { retry_info = reset_retry })) m)
run_handler raises now pending_timeout payload m = enter_recovering now m
run_handler raises now to_hang payload m = enter_recovering now (send hang_alert m)
run_handler raises now to_loss payload m =
    loss_of raises now (typed_rank payload.data_of) payload (send loss_alert m)
run_handler raises now to_inf payload m =
    enter_recovering now (blame_rank raises (typed_rank payload.data_of) payload (send inf_alert m))
run_handler raises now to_iter payload m =
    (no_command, note_last payload (note_checkpoint payload (note_first payload m)))
run_handler raises now handle_log_exit payload m = handle_exit raises now payload m
run_handler raises now recovery_stop_ok payload m =
    (start_training, on_ctx (λ c. record c { recovery_phase = some restarting }) m)
run_handler raises now recovery_start_ok payload m =
    (no_command, on_ctx (λ c. set_run_state pending (record c { retry_info = reset_retry })) m)
run_handler raises now handle_node_abnormal payload m = abnormal_of now payload.abnormal_nodes m
run_handler raises now handle_job_release payload m = enter_recovering now m
