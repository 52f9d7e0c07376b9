-- ===== src/Runtime/Machine/Tables.antt =====
-- job_state_machine.py: the tables of handlers.
use cluster_manager_das.Prelude.{Option, none, some}
use cluster_manager_das.Runtime.RunState.{
  RunState, starting, pending, running, recovering, fault_recover,
}
use cluster_manager_das.Runtime.Machine.State.{
  Signal, start_success, stop_success, log_running, log_hang, log_loss, log_inf, log_exit,
  log_timeout, log_iter, node_abnormal, job_release, Handler, to_pending, to_running,
  pending_timeout, to_hang, to_loss, to_inf, to_iter, handle_log_exit, recovery_stop_ok,
  recovery_start_ok, handle_node_abnormal, handle_job_release,
}

-- The table `_state_handlers`.
unfoldable pub state_handler : RunState → Signal → Option Handler
state_handler starting start_success = some to_pending
state_handler pending log_running = some to_running
state_handler pending log_timeout = some pending_timeout
state_handler pending log_hang = some to_hang
state_handler running log_hang = some to_hang
state_handler running log_loss = some to_loss
state_handler running log_inf = some to_inf
state_handler running log_exit = some handle_log_exit
state_handler running log_iter = some to_iter
state_handler recovering stop_success = some recovery_stop_ok
state_handler recovering start_success = some recovery_start_ok
state_handler fault_recover log_hang = some to_hang
state_handler fault_recover log_loss = some to_loss
state_handler fault_recover log_inf = some to_inf
state_handler fault_recover log_exit = some handle_log_exit
state_handler fault_recover log_iter = some to_iter
state_handler _ _ = none

-- The table `_common_handlers`.
unfoldable pub common_handler : Signal → Option Handler
common_handler node_abnormal = some handle_node_abnormal
common_handler job_release = some handle_job_release
common_handler _ = none

abbrev or_else : Option Handler → Option Handler → Option Handler
or_else none second = second
or_else (some h) second = some h

-- The table of the state first, the common one otherwise.
unfoldable pub handler_of : RunState → Signal → Option Handler
unfolding state_handler common_handler
handler_of s signal = or_else (state_handler s signal) (common_handler signal)
