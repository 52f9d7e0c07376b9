-- ===== src/Runtime/Machine/State.antt =====
-- job_state_machine.py: commands, signals and the state machine's fields. A time is a number of
-- seconds.
use cluster_manager_das.Prelude.{ℕ, String, List, Option}
use cluster_manager_das.Runtime.RunState.{RunState}
use cluster_manager_das.Runtime.Context.{Value, Payload, RuntimeContext}

-- `JobCommand`
pub data JobCommand : Type 0 where
  start_training stop_training sbatch_queue start_log_monitor no_command : JobCommand

-- `Signal`
pub data Signal : Type 0 where
  start_success stop_success log_running log_hang log_loss log_inf log_exit : Signal
  log_timeout log_iter node_abnormal job_release : Signal

-- The methods in the handler tables.
pub data Handler : Type 0 where
  to_pending to_running pending_timeout to_hang to_loss to_inf to_iter : Handler
  handle_log_exit recovery_stop_ok recovery_start_ok : Handler
  handle_node_abnormal handle_job_release : Handler

-- `EventType`; the manager's own feedback is another source.
pub data Source : Type 0 where
  log_monitor nhc_monitor other_source : Source

-- `Event`, with the payload's "type" beside its other keys.
pub record Event : Type 0 where
  pub source : Source
  pub kind : String
  pub payload : Payload

-- Why an operator has to look, as `_require_manual_intervention` says it.
pub data Reason : Type 0 where
  no_host : Reason
  host_not_blacklisted : String → Option Value → Reason
  prte_not_located : String → Reason
  exit_not_located : String → String → Reason
  unknown_exit : String → Reason

-- A message of `send_feishu_alert`.
pub data Alert : Type 0 where
  hang_alert loss_alert inf_alert : Alert
  manual_alert : Reason → Alert

-- An entry of the trace's "extra".
pub data Note : Type 0 where
  no_handler : RunState → Signal → Note
  manual_note : Reason → Note

-- An entry of `_flow_trace`
pub record TraceEntry : Type 0 where
  pub timestamp : ℕ
  pub before_state : RunState
  pub current_state : RunState
  pub event : Source
  pub signal : Signal
  pub handler : Option Handler
  pub next_command : Option JobCommand
  pub extra : List Note

-- The fields of `JobStateMachine`; `alerts` are the messages that were sent, the last one first.
pub record JobStateMachine : Type 0 where
  pub ctx : RuntimeContext
  pub alerts : List Alert
  pub flow_trace : List TraceEntry
  pub current_trace : Option TraceEntry
  pub start_time : Option ℕ
  pub stop_time : Option ℕ
  pub first_iter_time : Option ℕ
  pub first_iter : Option ℕ
  pub last_iter_time : Option ℕ
  pub last_iter : Option ℕ
  pub last_ckpt_iter_time : Option ℕ
  pub last_ckpt_iter : Option ℕ
