-- ===== src/Runtime/Apply/Stuck.antt =====
-- A request that has stopped asking the pool, with no node running.
use mathlib.Core.Path.{subst}
use cluster_manager_das.Prelude.{
  ℕ, zero, suc, ◌-◌, ◌≤◌, String, Bool, true, false, ◌||◌, List, [], ◌∷◌, Option, none, some, ◌≡◌,
  ◌≢◌, refl, sym, ap, arith, length, ltb, leb, if_cases, if_then, if_else, if◌then◌else◌,
}
use cluster_manager_das.Prelude.Exec.{Result, ok, err}
use cluster_manager_das.NodePool.Allocation.{apply_node_num_resources}
use cluster_manager_das.Runtime.Proxy.{NodePoolProxy, release_nodes, on_pool}
use cluster_manager_das.Runtime.Apply.{
  Round, Request, granted, refused, raised, waiting, Turn, done, again, load_given, resubmit_job,
}
use cluster_manager_das.Runtime.Apply.Rounds.{
  turn_after, counted_nodes, bound_by, recover_nodes, short_of, with_nodes, one_round, run_rounds,
  apply_resources,
}
use cluster_manager_das.Runtime.Apply.Idle.{
  IsIdle, IsIdle-load, IsIdle-recover, IsIdle-release, IsIdle-resubmit,
}

-- The request does not ask the pool, wants a node, and no node runs.
abbrev pub IsStuck : Request → NodePoolProxy → Type 0
IsStuck q x = (q.need_apply ≡ false) × (1 ≤ q.actual_required_num) × IsIdle x

-- A turn that grants nothing, and leaves a request as it is described.
abbrev NoGrant : Turn × NodePoolProxy → Type 0
NoGrant (done (granted m), x) = ⊥
NoGrant (done refused, x) = Unit
NoGrant (done (raised e), x) = Unit
NoGrant (done waiting, x) = Unit
NoGrant (again q, x) = IsStuck q x

NoGrant-after :
    {A : Type 0} (r : Result A × NodePoolProxy) (next : A → NodePoolProxy → Turn × NodePoolProxy)
    → IsIdle r.1
    → ((a : A) (y : NodePoolProxy) → IsIdle y → NoGrant (next a y))
    → NoGrant (turn_after r next)
NoGrant-after (ok a, x) next h k = k a x h
NoGrant-after (err e, x) next h k = tt

module _ (has_slurm : Bool) (required slots : ℕ) (some_nodes : 1 ≤ required) where
  back_or_waiting :
      (q : Request) (is_back : Bool) (y : NodePoolProxy)
      → q.need_apply ≡ false
      → IsIdle y
      → NoGrant
          (if is_back then again (record q { actual_required_num = required }) else done waiting, y)
  back_or_waiting q true y e i = (e, some_nodes, i)
  back_or_waiting q false y e i = tt

  NoGrant-short :
      (round : Round) (deficit : ℕ) (q : Request) (queued : Option ℕ) (x : NodePoolProxy)
      → 1 ≤ deficit
      → IsStuck q x
      → NoGrant (short_of has_slurm required slots round deficit q queued x)
  unfolding short_of
  NoGrant-short round deficit q none x d h = (refl, h.1, h.2)
  NoGrant-short round deficit q (some zero) x d h =
      NoGrant-after (resubmit_job round.attempts (release_nodes round.now x)) _
        (IsIdle-resubmit round.attempts (release_nodes round.now x)
          (IsIdle-release round.now x h.2))
        (λ is_back y i. back_or_waiting q is_back y h.0 i)
  NoGrant-short round deficit q (some (suc n)) x d h =
      NoGrant-after (load_given round.run_nodes_nhc round.additional_lines x) _
        (IsIdle-load round.run_nodes_nhc round.additional_lines x h.2)
        (λ additional y i.
          if_cases NoGrant (ltb (suc n) q.actual_required_num || leb deficit (length additional)) _
            _ (h.0, d, i)
            (NoGrant-after (recover_nodes (round.run_nhc y.node_pool.disk.abnormal_lines) y) _
              (IsIdle-recover (round.run_nhc y.node_pool.disk.abnormal_lines) y i)
              (λ _ z j. (h.0, d, j))))

  NoGrant-nodes :
      (round : Round) (count : ℕ) (q : Request) (x : NodePoolProxy)
      → count ≡ 0
      → IsStuck q x
      → NoGrant (with_nodes has_slurm required slots round count q x)
  unfolding with_nodes
  NoGrant-nodes round count q x e h =
      if_then NoGrant (ltb count q.actual_required_num) _ _ (ground (arith, e, h.1)) (
        if_cases NoGrant has_slurm _ _
          (NoGrant-short round (q.actual_required_num - count) q round.queue_count x
            (omega (arith, e, h.1)) h)
          tt)

  NoGrant-round :
      (round : Round) (q : Request) (x : NodePoolProxy)
      → IsStuck q x
      → NoGrant (one_round has_slurm required slots round q x)
  unfolding one_round
  NoGrant-round round q x h =
      if_else NoGrant q.need_apply _ _ h.0
        (NoGrant-nodes round (length x.node_pool.running_nodes) q x (ap length h.2) h)

  NoGrant-rounds :
      (rounds : List Round) (t : Turn) (x : NodePoolProxy) (master : String)
      → NoGrant (t, x)
      → (run_rounds has_slurm required slots rounds (t, x)).0 ≢ granted master
  unfolding run_rounds
  NoGrant-rounds rounds (done (granted m)) x master h e = h
  NoGrant-rounds rounds (done refused) x master h e = cc
  NoGrant-rounds rounds (done (raised _)) x master h e = cc
  NoGrant-rounds rounds (done waiting) x master h e = cc
  NoGrant-rounds [] (again q) x master h e = cc
  NoGrant-rounds (round ∷ rounds) (again q) x master h e =
      let next = one_round has_slurm required slots round q x in
      NoGrant-rounds rounds next.0 next.1 master (NoGrant-round round q x h) e

  -- The round in which the pool refuses and the query fails.
  failed_query :
      (round : Round) (q : Request) (x : NodePoolProxy)
      → IsIdle x
      → 1 ≤ q.actual_required_num
      → round.queue_count ≡ none
      → has_slurm ≡ true
      → NoGrant (with_nodes has_slurm required slots round 0 q x)
  unfolding with_nodes short_of
  failed_query round q x idle wanted failed there =
      if_then NoGrant (ltb 0 q.actual_required_num) _ _ (ground (arith, wanted)) (
        if_then NoGrant has_slurm _ _ there (
          subst
            (λ c.
              NoGrant (short_of has_slurm required slots round (q.actual_required_num - 0) q c x))
            (sym failed) (refl, wanted, idle)))

  -- If no node runs, the pool refuses the request for one node or more and the query of the queue
  -- fails in the same round, the call grants no master, whatever the scheduler, the checks and the
  -- files answer in however many later rounds: the pool is not asked again.
  pub apply_resources_stuck :
      (round : Round) (rounds : List Round) (x : NodePoolProxy) (master : String)
      → x.node_pool.running_nodes ≡ []
      → apply_node_num_resources round.allocate required slots x.node_pool ≡ (ok none, x.node_pool)
      → round.queue_count ≡ none
      → has_slurm ≡ true
      → (apply_resources has_slurm required slots (round ∷ rounds) x).0 ≢ granted master
  unfolding apply_resources run_rounds one_round counted_nodes on_pool
  apply_resources_stuck round rounds x master idle refusal failed there =
      let q : Request = record {
        actual_required_num = required;
        need_apply = true;
        slots_bound = false;
      } in
      let y = record x { required_num = required } in
      let first : NoGrant (one_round has_slurm required slots round q y) =
        subst
          (λ r. NoGrant (
            turn_after (r.0, record y { node_pool = r.1 })
              (λ answer z.
                with_nodes has_slurm required slots round (counted_nodes answer z)
                  (record q { slots_bound = bound_by false answer }) z)))
          (sym refusal) (failed_query round q y idle some_nodes failed there) in
      NoGrant-rounds rounds (one_round has_slurm required slots round q y).0
        (one_round has_slurm required slots round q y).1 master first
