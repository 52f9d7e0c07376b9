-- ===== src/Runtime/Examples.antt =====
-- Runs of a small job.
use cluster_manager_das.Prelude.{
  Bool, true, false, List, [], ◌∷◌, none, some, ◌≡◌, ◌⊎◌, refl, arith,
}
use cluster_manager_das.NodePool.Calls.{add_abnormal}
use cluster_manager_das.NodePool.Calls.Reachable.{abnormal_law}
use cluster_manager_das.NodePool.Examples.{
  pool, pool-IsPartition, some_blacklist, some_blacklist-IsLawful, is_e,
}
use cluster_manager_das.Runtime.Apply.{Round}
use cluster_manager_das.Runtime.Rank.{number, parse_rank_from_fault, has_char, is_digit}
use cluster_manager_das.Runtime.Rank.Located.{
  value, first_char, parse_rank_from_fault_launcher, parse_rank_from_fault_process,
}
use cluster_manager_das.Runtime.RunState.{
  init, pending, running, recovering, Config, amount, get_state, set_state,
}
use cluster_manager_das.Runtime.RunState.Restart.{Agree, get_state-set_state, resumed}
use cluster_manager_das.Runtime.Proxy.{NodeSnapshot, FaultReport, NodePoolProxy}
use cluster_manager_das.Runtime.Context.{
  integer, Payload, RuntimeContext, reset_retry, stopping, locate, handle_runtime_fault,
}
use cluster_manager_das.Runtime.Context.Isolation.{IsKept}
use cluster_manager_das.Runtime.Context.Removed.{
  IsRemoved, handle_runtime_fault_removes, handle_runtime_fault_misses,
  handle_runtime_fault_refuses,
}
use cluster_manager_das.Runtime.Machine.{on_event, on_started, on_stopped, next_action, init_state}
use cluster_manager_das.Runtime.Machine.State.{
  Event, log_monitor, nhc_monitor, JobStateMachine, no_command, start_training,
}
use cluster_manager_das.Runtime.Machine.Sound.{IsSound}
use cluster_manager_das.Runtime.Machine.Restarts.{
  IsStopping, recovery_ends, on_event_recovering, on_event_node_abnormal,
}
use cluster_manager_das.Runtime.Machine.Exits.{IsRestarted, IsReported, on_event_exit}
use cluster_manager_das.Runtime.Calls.{
  JobCall, event_comes, job_stopped, job_started, pool_called, nodes_released, nodes_requested,
  faults_noted, after_job_calls,
}
use cluster_manager_das.Runtime.Calls.Live.{IsLive, after_job_calls-IsLive}
use cluster_manager_das.Runtime.Calls.Begun.{Begins, init_state-Begins}

parse_rank_from_fault_launcher_example :
    parse_rank_from_fault "[prterun-a05r3n07-802797@1,76]" ≡ some (number 76)
unfolding value has_char is_digit
parse_rank_from_fault_launcher_example =
    parse_rank_from_fault_launcher "[prterun-a05r3n07-802797@1" "]" (first_char "7") "6" refl refl
      (refl, (refl, tt)) (refl, tt)

parse_rank_from_fault_process_example :
    parse_rank_from_fault "Process name: [[24917,1],18]" ≡ some (number 18)
unfolding value has_char is_digit
parse_rank_from_fault_process_example =
    parse_rank_from_fault_process "Process name: [[24917,1]" "" (first_char "1") "8" refl refl refl
      (refl, (refl, tt))

abbrev model : Config
model = ("--world-size", amount 8) ∷ []

abbrev quiet : FaultReport → Bool
quiet r = false

get_state-set_state_example :
    (Agree model model → get_state (set_state true running model none) model ≡ resumed running)
    × (¬ Agree model model → get_state (set_state true running model none) model ≡ init)
get_state-set_state_example = get_state-set_state running model model none

abbrev snapshot : NodeSnapshot
snapshot = record {
  start_time = some 5;
  stop_time = none;
  apply_time = some 4;
  release_time = none;
  running_nodes = "a" ∷ [];
  fault_nodes = [];
  fault_count = 0;
  first_iter = none;
  first_iter_time = none;
  last_iter = none;
  last_iter_time = none;
  last_ckpt_iter = none;
  last_ckpt_iter_time = none;
}

abbrev proxy : NodePoolProxy
proxy = record {
  node_pool = pool;
  snapshots = [];
  current_snapshot = some snapshot;
  last_snapshot = none;
  current_snapshot_file = some snapshot;
  required_num = 1;
  reports = [];
}

proxy-IsKept : IsKept proxy
proxy-IsKept = record { partition = pool-IsPartition; saved = refl }

abbrev context : RuntimeContext
context = record {
  config = record {
    slots_per_node = integer (number 8);
    mpi_ranks_per_node = some (integer (number 1));
    required_nodes_num = 2;
    megatron_config = model;
  };
  node_pool_proxy = proxy;
  run_state = running;
  state_file = some (record { megatron_config = model; run_state = "RUNNING" });
  state_writable = true;
  retry_info = reset_retry;
  recovery_phase = none;
}

abbrev machine : JobStateMachine
machine = record {
  ctx = context;
  alerts = [];
  flow_trace = [];
  current_trace = none;
  start_time = some 5;
  stop_time = none;
  first_iter_time = none;
  first_iter = none;
  last_iter_time = none;
  last_iter = none;
  last_ckpt_iter_time = none;
  last_ckpt_iter = none;
}

context-IsSound : IsSound context
unfolding get_state
context-IsSound = record { kept = proxy-IsKept; driven = tt; resumable = λ w. refl }

abbrev exit_payload : Payload
exit_payload = record {
  data_of = some (record {
    fault_type = some "node";
    rank = none;
    host = none;
    fault_info = some "a";
    runtime = none;
    message = some "gone";
  });
  cur_iter = some 7;
  timestamp = some 9;
  is_ckpt = false;
  abnormal_nodes = "a" ∷ [];
}

abbrev exit_event : Event
exit_event = record { source = log_monitor; kind = "exit"; payload = exit_payload }

abbrev abnormal_event : Event
abnormal_event = record { source = nhc_monitor; kind = "fault"; payload = exit_payload }

handle_runtime_fault_removes_example :
    ((handle_runtime_fault quiet (integer (number 3)) "global_rank" exit_payload context).0 ≡ true)
    × IsRemoved "a" proxy
        (handle_runtime_fault quiet
          (integer (number 3))
          "global_rank"
          exit_payload
          context).1.node_pool_proxy
unfolding locate
handle_runtime_fault_removes_example =
    handle_runtime_fault_removes quiet exit_payload context (integer (number 3)) "global_rank" refl
      0 refl (λ r. refl) proxy-IsKept "a" refl

handle_runtime_fault_misses_example :
    handle_runtime_fault quiet (integer (number 9)) "global_rank" exit_payload context
    ≡ (true, context)
handle_runtime_fault_misses_example =
    handle_runtime_fault_misses quiet exit_payload context 9 7 1 refl refl (omega arith)
      (omega arith)

handle_runtime_fault_refuses_example :
    handle_runtime_fault quiet (integer (number 16)) "global_rank" exit_payload context
    ≡ (false, context)
handle_runtime_fault_refuses_example =
    handle_runtime_fault_refuses quiet exit_payload context 16 7 1 refl refl (omega arith)

abbrev round : Round
round = record {
  now = 50;
  allocate = some_blacklist;
  queue_count = some 2;
  later_count = none;
  attempts = [];
  additional_lines = none;
  run_nodes_nhc = λ nodes. nodes;
  run_nhc = λ lines. record { healthy_nodes = lines; faulty_nodes = []; probe_ok = true };
}

abbrev job_calls : List JobCall
job_calls =
    event_comes quiet 10 exit_event
    ∷ pool_called (add_abnormal ("b" ∷ []))
    ∷ faults_noted ("a" ∷ []) ("a" ∷ []) (("a", "gone") ∷ [])
    ∷ nodes_released 11
    ∷ nodes_requested true 1 8 (round ∷ [])
    ∷ job_stopped quiet 12
    ∷ job_started quiet 13
    ∷ []

after_job_calls-IsLive_example : IsLive (after_job_calls job_calls machine)
after_job_calls-IsLive_example =
    after_job_calls-IsLive job_calls machine
      (tt, (abnormal_law, (tt, (tt, (((is_e, some_blacklist-IsLawful), tt), (tt, (tt, tt)))))))
      (record { sound = context-IsSound; short = ground arith })

abbrev restarted_machine : JobStateMachine
restarted_machine = record machine { ctx = record context { run_state = pending } }

init_state-Begins_example :
    IsSound (init_state 20 restarted_machine).ctx
    × Begins
        (init_state 20 restarted_machine).ctx.run_state
        (init_state 20 restarted_machine).ctx.recovery_phase
unfolding get_state
init_state-Begins_example = init_state-Begins 20 restarted_machine proxy-IsKept refl

abbrev recovering_machine : JobStateMachine
recovering_machine = record machine {
  ctx = record context { run_state = recovering; recovery_phase = some stopping };
}

recovery_ends_example :
    ((on_stopped quiet 21 recovering_machine).0 ≡ start_training)
    × (next_action (on_stopped quiet 21 recovering_machine).1 ≡ start_training)
    × ((on_started quiet 22 (on_stopped quiet 21 recovering_machine).1).0 ≡ no_command)
    × ((on_started quiet 22 (on_stopped quiet 21 recovering_machine).1).1.ctx.run_state ≡ pending)
    × ((on_started quiet 22 (on_stopped quiet 21 recovering_machine).1).1.ctx.retry_info
        ≡ reset_retry)
recovery_ends_example = recovery_ends quiet 21 22 recovering_machine refl

on_event_recovering_example :
    ((on_event quiet 23 abnormal_event recovering_machine).0 ≡ no_command)
    × ((on_event quiet 23 abnormal_event recovering_machine).1.ctx ≡ recovering_machine.ctx)
on_event_recovering_example = on_event_recovering quiet 23 abnormal_event recovering_machine refl

on_event_node_abnormal_example : IsStopping 24 context (on_event quiet 24 abnormal_event machine)
on_event_node_abnormal_example =
    on_event_node_abnormal quiet 24 abnormal_event machine refl refl refl (λ e. cc)

on_event_exit_example :
    IsRestarted quiet exit_payload context (on_event quiet 25 exit_event machine)
    ⊎ IsReported machine (on_event quiet 25 exit_event machine)
on_event_exit_example = on_event_exit quiet 25 exit_event machine refl refl refl
