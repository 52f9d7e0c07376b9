-- ===== src/Runtime/Apply/Kept.antt =====
-- A request for nodes keeps the rules of the pool and the snapshot's file, however it ends.
use cluster_manager_das.Prelude.{
  ℕ, zero, suc, ◌-◌, String, Bool, true, false, not, ◌&&◌, ◌||◌, List, [], ◌∷◌, Option, none, some,
  refl, length, is_empty, nat_eq, ltb, leb, if_cases,
}
use cluster_manager_das.Prelude.Names.{first_ones, contains, dedup, sort}
use cluster_manager_das.Prelude.Names.Strip.{valid_nodes}
use cluster_manager_das.Prelude.Exec.{Result, ok, err}
use cluster_manager_das.Hostfile.{read_hostfile}
use cluster_manager_das.NodePool.State.{deduplicate_and_sort}
use cluster_manager_das.NodePool.Marking.{
  add_total_nodes, add_normal_nodes, add_abnormal_nodes, reset_node_pool,
}
use cluster_manager_das.NodePool.Calls.Reachable.{reset_node_pool-IsPartition}
use cluster_manager_das.NodePool.Partition.Rules.{IsPartition-aside}
use cluster_manager_das.NodePool.Partition.Marking.{add_abnormal_nodes-Kept}
use cluster_manager_das.NodePool.Partition.Restoring.{add_total_nodes-Kept, add_normal_nodes-Kept}
use cluster_manager_das.NodePool.Allocation.{apply_node_num_resources}
use cluster_manager_das.NodePool.Allocation.Promise.{IsLawful, apply_node_num_resources-IsPartition}
use cluster_manager_das.Runtime.Proxy.{NodePoolProxy, release_nodes, report_fault, on_pool}
use cluster_manager_das.Runtime.Context.Isolation.{IsKept, IsKept-on_pool, release_nodes-IsKept}
use cluster_manager_das.Runtime.Apply.{
  Probe, Attempt, Round, Request, Turn, done, again, added_nodes, note_added, load_additional,
  load_given, resubmit_job,
}
use cluster_manager_das.Runtime.Apply.Rounds.{
  record_grant, grant, turn_after, recover_nodes, short_of, report_faulty, still_missing,
  queue_gone, with_faulty, check_health, with_nodes, one_round, run_rounds, apply_resources,
}

-- The blacklist of each round keeps its law, with its own fatal nodes.
abbrev pub AllRoundsLawful : List Round → Type 0
AllRoundsLawful [] = Unit
AllRoundsLawful (round ∷ rounds) =
    ((is_fatal : String → Bool) × IsLawful round.allocate is_fatal) × AllRoundsLawful rounds

-- An answer with a proxy that is kept.
abbrev AfterKept : {A : Type 0} → A × NodePoolProxy → Type 0
AfterKept r = IsKept r.1

IsKept-turn_after :
    {A : Type 0} (r : Result A × NodePoolProxy) (next : A → NodePoolProxy → Turn × NodePoolProxy)
    → AfterKept r
    → ((a : A) (y : NodePoolProxy) → IsKept y → AfterKept (next a y))
    → AfterKept (turn_after r next)
IsKept-turn_after (ok a, x) next h k = k a x h
IsKept-turn_after (err e, x) next h k = h

IsKept-resubmit :
    (attempts : List Attempt) (x : NodePoolProxy) → IsKept x → AfterKept (resubmit_job attempts x)
unfolding resubmit_job deduplicate_and_sort valid_nodes dedup sort contains
IsKept-resubmit [] x h = h
IsKept-resubmit (a ∷ rest) x h =
    if_cases AfterKept (a.submitted || ltb 0 a.queued_after) _ _
      (IsKept-on_pool (reset_node_pool (read_hostfile a.hostfile_lines) []) x h
        (reset_node_pool-IsPartition x.node_pool (read_hostfile a.hostfile_lines) [] (λ z m. cc)))
      (IsKept-resubmit rest x h)

IsKept-added :
    (answer : Result (Option (List String))) (x : NodePoolProxy)
    → IsKept x
    → AfterKept (added_nodes answer x)
unfolding added_nodes note_added
IsKept-added (err e) x h = h
IsKept-added (ok none) x h = h
IsKept-added (ok (some added)) x h = if_cases IsKept _ _ _ h (record {
  partition = IsPartition-aside x.node_pool h.partition _ x.node_pool.len_running_abnormal_nodes;
  saved = h.saved;
})

IsKept-load :
    (check : List String → List String) (lines : Option (List String)) (x : NodePoolProxy)
    → IsKept x
    → AfterKept (load_given check lines x)
unfolding load_given load_additional
IsKept-load check none x h = h
IsKept-load check (some lines) x h =
    let passed = check (first_ones [] (valid_nodes lines)) in
    if_cases AfterKept (is_empty (valid_nodes lines) || is_empty passed) _ _ h (
      IsKept-added _ _ (
        IsKept-on_pool (add_total_nodes passed) x h
          (add_total_nodes-Kept x.node_pool h.partition passed).partition))

IsKept-recover : (probe : Probe) (x : NodePoolProxy) → IsKept x → AfterKept (recover_nodes probe x)
unfolding recover_nodes
IsKept-recover probe x h =
    if_cases AfterKept (not probe.probe_ok || is_empty probe.healthy_nodes) _ _ h (
      IsKept-on_pool (add_normal_nodes probe.healthy_nodes) x h
        (add_normal_nodes-Kept x.node_pool h.partition probe.healthy_nodes).partition)

IsKept-grant :
    (bound : Bool) (now : ℕ) (healthy : List String) (x : NodePoolProxy)
    → IsKept x
    → AfterKept (grant bound now healthy x)
unfolding grant record_grant
IsKept-grant false now healthy x h = h
IsKept-grant true now healthy x h = record {
  partition = IsPartition-aside x.node_pool h.partition _ x.node_pool.len_running_abnormal_nodes;
  saved = refl;
}

module _ (has_slurm : Bool) (required slots : ℕ) where
  IsKept-short :
      (round : Round) (deficit : ℕ) (q : Request) (queued : Option ℕ) (x : NodePoolProxy)
      → IsKept x
      → AfterKept (short_of has_slurm required slots round deficit q queued x)
  unfolding short_of
  IsKept-short round deficit q none x h = h
  IsKept-short round deficit q (some zero) x h =
      IsKept-turn_after (resubmit_job round.attempts (release_nodes round.now x)) _
        (IsKept-resubmit round.attempts (release_nodes round.now x)
          (release_nodes-IsKept round.now x h))
        (λ _ y k. k)
  IsKept-short round deficit q (some (suc n)) x h =
      IsKept-turn_after (load_given round.run_nodes_nhc round.additional_lines x) _
        (IsKept-load round.run_nodes_nhc round.additional_lines x h)
        (λ additional y k.
          if_cases AfterKept (ltb (suc n) q.actual_required_num || leb deficit (length additional))
            _ _ k
            (IsKept-turn_after (recover_nodes (round.run_nhc y.node_pool.disk.abnormal_lines) y) _
              (IsKept-recover (round.run_nhc y.node_pool.disk.abnormal_lines) y k) (λ _ z l. l)))

  IsKept-report :
      (nodes : List String) (x : NodePoolProxy)
      → IsKept x
      → IsKept (report_faulty has_slurm required slots nodes x)
  unfolding report_faulty report_fault
  IsKept-report [] x h = h
  IsKept-report (node ∷ nodes) x h =
      IsKept-report nodes _ (record { partition = h.partition; saved = h.saved })

  IsKept-missing :
      (round : Round) (probe : Probe) (q : Request) (x : NodePoolProxy)
      → IsKept x
      → AfterKept (still_missing has_slurm required slots round probe q x)
  unfolding still_missing
  IsKept-missing round probe q x h =
      let missing = required - length probe.healthy_nodes in
      let k = IsKept-report probe.faulty_nodes x h in
      if_cases AfterKept (not has_slurm && ltb 0 missing) _ _ h (
        if_cases AfterKept (nat_eq missing 0) _ _
          (IsKept-grant q.slots_bound round.now probe.healthy_nodes _ k) k)

  IsKept-queue :
      (round : Round) (probe : Probe) (q : Request) (queued : Option ℕ) (x : NodePoolProxy)
      → IsKept x
      → AfterKept (queue_gone has_slurm required slots round probe q queued x)
  unfolding queue_gone
  IsKept-queue round probe q none x h = h
  IsKept-queue round probe q (some zero) x h = h
  IsKept-queue round probe q (some (suc n)) x h = IsKept-missing round probe q x h

  IsKept-health :
      (round : Round) (q : Request) (x : NodePoolProxy)
      → IsKept x
      → AfterKept (check_health has_slurm required slots round q x)
  unfolding check_health with_faulty
  IsKept-health round q x h =
      let probe = round.run_nhc x.node_pool.disk.running_lines in
      let retry = record q { need_apply = true } in
      if_cases AfterKept (not probe.probe_ok) _ _ h (
        if_cases AfterKept (not (is_empty probe.faulty_nodes)) _ _
          (IsKept-turn_after (on_pool (add_abnormal_nodes probe.faulty_nodes) x) _
            (IsKept-on_pool (add_abnormal_nodes probe.faulty_nodes) x h
              (add_abnormal_nodes-Kept x.node_pool h.partition probe.faulty_nodes).partition)
            (λ marked y k. if_cases AfterKept marked.1 _ _ k (
              if_cases AfterKept (nat_eq required (length probe.faulty_nodes) && has_slurm) _ _
                (IsKept-queue round probe retry round.later_count y k)
                (IsKept-missing round probe retry y k))))
          (if_cases AfterKept (is_empty probe.healthy_nodes) _ _ h
            (IsKept-grant q.slots_bound round.now probe.healthy_nodes x h)))

  IsKept-nodes :
      (round : Round) (count : ℕ) (q : Request) (x : NodePoolProxy)
      → IsKept x
      → AfterKept (with_nodes has_slurm required slots round count q x)
  unfolding with_nodes
  IsKept-nodes round count q x h =
      if_cases AfterKept (ltb count q.actual_required_num) _ _
        (if_cases AfterKept has_slurm _ _
          (IsKept-short round (q.actual_required_num - count) q round.queue_count x h) h)
        (IsKept-health round q x h)

  IsKept-round :
      (round : Round) (is_fatal : String → Bool)
      → IsLawful round.allocate is_fatal
      → (q : Request) (x : NodePoolProxy) → IsKept x
      → AfterKept (one_round has_slurm required slots round q x)
  unfolding one_round
  IsKept-round round is_fatal law q x h =
      if_cases AfterKept q.need_apply _ _
        (IsKept-turn_after
          (on_pool (apply_node_num_resources round.allocate q.actual_required_num slots) x) _
          (IsKept-on_pool (apply_node_num_resources round.allocate q.actual_required_num slots) x h
            (apply_node_num_resources-IsPartition round.allocate is_fatal law x.node_pool
              h.partition q.actual_required_num slots))
          (λ answer y k. IsKept-nodes round _ _ y k))
        (IsKept-nodes round _ q x h)

  IsKept-rounds :
      (rounds : List Round) (t : Turn) (x : NodePoolProxy)
      → AllRoundsLawful rounds
      → IsKept x
      → AfterKept (run_rounds has_slurm required slots rounds (t, x))
  unfolding run_rounds
  IsKept-rounds rounds (done o) x law h = h
  IsKept-rounds [] (again q) x law h = h
  IsKept-rounds (round ∷ rounds) (again q) x law h =
      let next = one_round has_slurm required slots round q x in
      IsKept-rounds rounds next.0 next.1 law.1 (IsKept-round round law.0.0 law.0.1 q x h)

  -- The rules and the snapshot's file are kept, whatever the rounds, where their blacklists are lawful.
  pub apply_resources-IsKept :
      (rounds : List Round) (x : NodePoolProxy)
      → AllRoundsLawful rounds
      → IsKept x
      → IsKept (apply_resources has_slurm required slots rounds x).1
  unfolding apply_resources
  apply_resources-IsKept rounds x law h =
      IsKept-rounds rounds
        (again (record { actual_required_num = required; need_apply = true; slots_bound = false }))
        (record x { required_num = required }) law
        (record { partition = h.partition; saved = h.saved })
