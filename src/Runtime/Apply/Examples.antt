-- ===== src/Runtime/Apply/Examples.antt =====
-- Runs of the loop on a pool of one node.
use cluster_manager_das.Prelude.{true, false, [], ◌∷◌, none, ◌≢◌, refl, arith}
use cluster_manager_das.Prelude.Names.{contains, dedup, sort, insert, inter, diff, remove}
use cluster_manager_das.Prelude.Names.Strip.{strip, valid_nodes}
use cluster_manager_das.NodePool.State.{
  NodePool, deduplicate_and_sort, validate_and_fix_constraints, fix_constraints, persist_all_nodes,
  write_slots_running_nodes_file,
}
use cluster_manager_das.NodePool.Allocation.{
  Allocate, apply_node_num_resources, get_available_nodes_with_blacklist, group_candidates,
  commit_running, extend_running,
}
use cluster_manager_das.NodePool.Allocation.Select.{select_nodes, select_fresh}
use cluster_manager_das.NodePool.Examples.{pool}
use cluster_manager_das.Runtime.Proxy.{NodePoolProxy, on_pool}
use cluster_manager_das.Runtime.Apply.{Round, again, granted}
use cluster_manager_das.Runtime.Apply.Rounds.{
  apply_resources, run_rounds, one_round, with_nodes, counted_nodes, check_health, grant,
  record_grant,
}
use cluster_manager_das.Runtime.Apply.Stuck.{apply_resources_stuck}
use cluster_manager_das.Runtime.Apply.Granted.{IsGranted, apply_resources_grants}

abbrev one_node : NodePool
one_node = record pool {
  total_nodes = "a" ∷ [];
  running_nodes = [];
  backup_nodes = "a" ∷ [];
  abnormal_nodes = [];
  normal_nodes = "a" ∷ [];
  last_running_nodes = [];
}

abbrev proxy : NodePoolProxy
proxy = record {
  node_pool = one_node;
  snapshots = [];
  current_snapshot = none;
  last_snapshot = none;
  current_snapshot_file = none;
  required_num = 0;
  reports = [];
}

abbrev no_blacklist : Allocate
no_blacklist candidates n = none

-- A round in which all checked nodes are healthy and the query of the queue fails.
abbrev round : Round
round = record {
  now = 50;
  allocate = no_blacklist;
  queue_count = none;
  later_count = none;
  attempts = [];
  additional_lines = none;
  run_nodes_nhc = λ nodes. nodes;
  run_nhc = λ lines. record { healthy_nodes = lines; faulty_nodes = []; probe_ok = true };
}

apply_resources_stuck_example :
    (apply_resources true 2 8 (round ∷ round ∷ []) proxy).0 ≢ granted "a"
unfolding apply_node_num_resources get_available_nodes_with_blacklist group_candidates
apply_resources_stuck_example =
    apply_resources_stuck true 2 8 (omega arith) round (round ∷ []) proxy "a" refl refl refl refl

apply_resources_grants_example :
    IsGranted true 1 8
      (
        again (record { actual_required_num = 1; need_apply = true; slots_bound = false }),
        record proxy { required_num = 1 },
      )
      (round ∷ [])
      "a"
      (apply_resources true 1 8 (round ∷ []) proxy).1
unfolding apply_resources run_rounds one_round with_nodes counted_nodes check_health grant
    record_grant on_pool apply_node_num_resources get_available_nodes_with_blacklist
    group_candidates select_nodes select_fresh commit_running extend_running deduplicate_and_sort
    validate_and_fix_constraints fix_constraints persist_all_nodes write_slots_running_nodes_file
    valid_nodes strip contains dedup sort insert inter diff remove
apply_resources_grants_example = apply_resources_grants true 1 8 (round ∷ []) proxy "a" refl
