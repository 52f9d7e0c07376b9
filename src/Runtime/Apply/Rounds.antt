-- ===== src/Runtime/Apply/Rounds.antt =====
-- The rounds of the loop: what is asked of the pool, what a shortage leads to, the health check, and
-- the grant.
use cluster_manager_das.Prelude.{
  ℕ, zero, suc, ◌-◌, String, Bool, true, false, not, ◌&&◌, ◌||◌, List, [], ◌∷◌, Option, none, some,
  length, is_empty, ltb, leb, nat_eq, if◌then◌else◌,
}
use cluster_manager_das.Prelude.Exec.{name_error, index_error, Result, ok, err, Exec}
use cluster_manager_das.Hostfile.{write_slotsfile}
use cluster_manager_das.NodePool.Marking.{add_normal_nodes, add_abnormal_nodes}
use cluster_manager_das.NodePool.Allocation.{apply_node_num_resources}
use cluster_manager_das.Runtime.Proxy.{
  NodeSnapshot, NodePoolProxy, persisted, release_nodes, report_fault, on_pool,
}
use cluster_manager_das.Runtime.Apply.{
  Probe, Round, Request, Outcome, granted, refused, raised, waiting, Turn, done, again, load_given,
  resubmit_job,
}

-- The snapshot of a run that begins.
abbrev pub begun : ℕ → List String → NodeSnapshot
begun now healthy = record {
  start_time = none;
  stop_time = none;
  apply_time = some now;
  release_time = none;
  running_nodes = healthy;
  fault_nodes = [];
  fault_count = 0;
  first_iter = none;
  first_iter_time = none;
  last_iter = none;
  last_iter_time = none;
  last_ckpt_iter = none;
  last_ckpt_iter_time = none;
}

-- The slots file and the snapshot of a grant. `write_slotsfile` is called without a number of slots,
-- so it takes its default of 8.
unfoldable pub record_grant : ℕ → List String → NodePoolProxy → NodePoolProxy
record_grant now healthy x = record x {
  node_pool = record x.node_pool {
    disk = record x.node_pool.disk {
      slots_lines = write_slotsfile healthy 8 x.node_pool.disk.slots_lines;
    };
  };
  current_snapshot = some (begun now healthy);
  current_snapshot_file = persisted (some (begun now healthy)) x.current_snapshot_file;
}

abbrev pub master_of : List String → Outcome
master_of [] = raised index_error
master_of (node ∷ nodes) = granted node

-- The end of a successful call; `slots_file` may be unbound.
unfoldable pub grant : Bool → ℕ → List String → NodePoolProxy → Turn × NodePoolProxy
unfolding record_grant
grant slots_bound now healthy x =
    if slots_bound
    then (done (master_of healthy), record_grant now healthy x)
    else (done (raised name_error), x)

-- What follows a call that may raise.
abbrev pub turn_after {ℓ} :
    {A : Type ℓ}
    → Result A × NodePoolProxy
    → (A → NodePoolProxy → Turn × NodePoolProxy)
    → Turn × NodePoolProxy
turn_after (ok a, x) next = next a x
turn_after (err e, x) next = (done (raised e), x)

-- The request for nodes; a refusal of the pool leaves no nodes in the count, whatever runs.
unfoldable pub counted_nodes : Option (Option String) → NodePoolProxy → ℕ
counted_nodes none x = 0
counted_nodes (some master) x = length x.node_pool.running_nodes

abbrev pub bound_by : Bool → Option (Option String) → Bool
bound_by old none = old
bound_by old (some master) = true

-- The nodes that have recovered join the pool, where the check of the abnormal ones worked.
unfoldable pub recover_nodes : Probe → Exec NodePoolProxy Unit
unfolding on_pool
recover_nodes probe x =
    let (answer, y) = on_pool (add_normal_nodes probe.healthy_nodes) x in
    if not probe.probe_ok || is_empty probe.healthy_nodes then (ok tt, x) else (forget answer, y)
  where
    forget : {A : Type 0} → Result {0} A → Result {0} Unit
    forget (ok _) = ok tt
    forget (err e) = err e

module _ (has_slurm : Bool) (required slots : ℕ) where
  -- A shortage: by the number of queued nodes, a new submission, or more nodes from elsewhere.
  unfoldable pub short_of : Round → ℕ → Request → Option ℕ → NodePoolProxy → Turn × NodePoolProxy
  unfolding resubmit_job load_given recover_nodes release_nodes
  short_of round deficit q none x = (again (record q { need_apply = false }), x)
  short_of round deficit q (some zero) x =
      turn_after (resubmit_job round.attempts (release_nodes round.now x)) (λ is_back y.
        (if is_back then again (record q { actual_required_num = required }) else done waiting, y))
  short_of round deficit q (some (suc n)) x =
      let next = record q { actual_required_num = deficit } in
      turn_after (load_given round.run_nodes_nhc round.additional_lines x) (λ additional y.
        if ltb (suc n) q.actual_required_num || leb deficit (length additional)
        then (again next, y)
        else turn_after (recover_nodes (round.run_nhc y.node_pool.disk.abnormal_lines) y)
            (λ _ z. (again next, z)))

  -- The reports of the faulty nodes; the method of the blacklist raises nothing.
  unfoldable pub report_faulty : List String → NodePoolProxy → NodePoolProxy
  unfolding report_fault
  report_faulty [] x = x
  report_faulty (node ∷ nodes) x = report_faulty nodes (
      report_fault (λ r. false)
        (record {
          node_name = node;
          description = "apply_node_num_resources 申请节点时，执行run_nhc 未通过";
          micro_step = none;
        })
        x)

  -- The rest of a check with faulty nodes that were not running.
  unfoldable pub still_missing : Round → Probe → Request → NodePoolProxy → Turn × NodePoolProxy
  unfolding report_faulty grant
  still_missing round probe q x =
      let missing = required - length probe.healthy_nodes in
      let reported = report_faulty probe.faulty_nodes x in
      if not has_slurm && ltb 0 missing
      then (done refused, x)
      else if nat_eq missing 0
      then grant q.slots_bound round.now probe.healthy_nodes reported
      else (again (record q { actual_required_num = missing }), reported)

  -- The query of the queue where every node is faulty.
  unfoldable pub queue_gone :
      Round → Probe → Request → Option ℕ → NodePoolProxy → Turn × NodePoolProxy
  unfolding still_missing
  queue_gone round probe q none x = (again q, x)
  queue_gone round probe q (some zero) x = (again (record q { actual_required_num = required }), x)
  queue_gone round probe q (some (suc n)) x = still_missing round probe q x

  -- A check that found faulty nodes.
  unfoldable pub with_faulty : Round → Probe → Request → NodePoolProxy → Turn × NodePoolProxy
  unfolding queue_gone on_pool
  with_faulty round probe q x =
      let retry = record q { need_apply = true } in
      turn_after (on_pool (add_abnormal_nodes probe.faulty_nodes) x) (λ marked y.
        if marked.1
        then (again (record retry { actual_required_num = required }), y)
        else if nat_eq required (length probe.faulty_nodes) && has_slurm
        then queue_gone round probe retry round.later_count y
        else still_missing round probe retry y)

  -- The health check of the running nodes.
  unfoldable pub check_health : Round → Request → NodePoolProxy → Turn × NodePoolProxy
  unfolding with_faulty grant
  check_health round q x =
      let probe = round.run_nhc x.node_pool.disk.running_lines in
      if not probe.probe_ok
      then (again (record q { need_apply = false }), x)
      else if not (is_empty probe.faulty_nodes)
      then with_faulty round probe q x
      else if is_empty probe.healthy_nodes
      then (again (record q { actual_required_num = required }), x)
      else grant q.slots_bound round.now probe.healthy_nodes x

  -- The part of a round that follows the request, with the number of nodes.
  unfoldable pub with_nodes : Round → ℕ → Request → NodePoolProxy → Turn × NodePoolProxy
  unfolding short_of check_health
  with_nodes round count q x =
      if ltb count q.actual_required_num
      then (if has_slurm
          then short_of round (q.actual_required_num - count) q round.queue_count x
          else (done refused, x))
      else check_health round q x

  -- One round of the loop.
  unfoldable pub one_round : Round → Request → NodePoolProxy → Turn × NodePoolProxy
  unfolding with_nodes counted_nodes on_pool
  one_round round q x =
      if q.need_apply
      then turn_after
          (on_pool (apply_node_num_resources round.allocate q.actual_required_num slots) x)
          (λ answer y.
            with_nodes round (counted_nodes answer y)
              (record q { slots_bound = bound_by q.slots_bound answer }) y)
      else with_nodes round (length x.node_pool.running_nodes) q x

  unfoldable pub run_rounds : List Round → Turn × NodePoolProxy → Outcome × NodePoolProxy
  unfolding one_round
  run_rounds rounds (done o, x) = (o, x)
  run_rounds [] (again q, x) = (waiting, x)
  run_rounds (round ∷ rounds) (again q, x) = run_rounds rounds (one_round round q x)

  -- `NodePoolProxy.apply_node_num_resources`
  unfoldable pub apply_resources : List Round → NodePoolProxy → Outcome × NodePoolProxy
  unfolding run_rounds
  apply_resources rounds x = run_rounds rounds (
    again (record { actual_required_num = required; need_apply = true; slots_bound = false }),
    record x { required_num = required },
  )
