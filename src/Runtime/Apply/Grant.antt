-- ===== src/Runtime/Apply/Grant.antt =====
-- What a round leaves that grants nodes.
use cluster_manager_das.Prelude.{
  ℕ, zero, suc, ◌-◌, String, Bool, true, false, not, ◌&&◌, ◌||◌, List, [], ◌∷◌, Option, none, some,
  ◌≤◌, ◌⊎◌, inl, inr, arith, Bool-cases, if_then, if_else, ◌≡◌, refl, length, head?, is_empty,
  nat_eq, ltb, leb, map, if_cases, if◌then◌else◌,
}
use cluster_manager_das.Prelude.Names.{sort, dedup}
use cluster_manager_das.Prelude.Exec.{Result, ok, err}
use cluster_manager_das.Hostfile.{write_slotsfile}
use cluster_manager_das.NodePool.Allocation.{apply_node_num_resources}
use cluster_manager_das.NodePool.Marking.{add_abnormal_nodes}
use cluster_manager_das.Runtime.Proxy.{NodePoolProxy, release_nodes, on_pool}
use cluster_manager_das.Runtime.Apply.{
  Probe, Round, Request, granted, refused, raised, waiting, Turn, done, again, load_given,
  resubmit_job,
}
use cluster_manager_das.Runtime.Apply.Rounds.{
  begun, master_of, record_grant, grant, turn_after, counted_nodes, bound_by, recover_nodes,
  short_of, report_faulty, still_missing, queue_gone, with_faulty, check_health, with_nodes,
  one_round,
}

-- A list of hosts that is not empty is written with the default of 8 slots.
write_slotsfile-some :
    (hosts : List String) (host : String) (old : List (String × ℕ))
    → head? hosts ≡ some host
    → write_slotsfile hosts 8 old ≡ map (λ node. (node, 8)) (sort (dedup hosts))
unfolding write_slotsfile
write_slotsfile-some [] host old e = cc
write_slotsfile-some (x ∷ hosts) host old e = refl

-- What a grant of a master leaves: the health check worked and found nothing faulty, or as many
-- healthy nodes as are required; the master is the first of its healthy nodes, which are those of the
-- snapshot and of the slots file, where each has 8 slots.
pub record IsGrant (required : ℕ) (probe : Probe) (now : ℕ) (master : String) (x : NodePoolProxy)
    : Type 0 where
  pub worked : probe.probe_ok ≡ true
  pub enough : (is_empty probe.faulty_nodes ≡ true) ⊎ (required ≤ length probe.healthy_nodes)
  pub first : head? probe.healthy_nodes ≡ some master
  pub snapshot : x.current_snapshot ≡ some (begun now probe.healthy_nodes)
  pub on_disk : x.current_snapshot_file ≡ some (begun now probe.healthy_nodes)
  pub slots :
      x.node_pool.disk.slots_lines ≡ map (λ node. (node, 8)) (sort (dedup probe.healthy_nodes))

-- A check whose healthy nodes may be granted.
abbrev MayGrant : ℕ → Probe → Type 0
MayGrant required probe =
    (probe.probe_ok ≡ true)
    × ((is_empty probe.faulty_nodes ≡ true) ⊎ (required ≤ length probe.healthy_nodes))

abbrev pub GrantsWell : ℕ → Probe → ℕ → Turn × NodePoolProxy → Type 0
GrantsWell required probe now (done (granted m), x) = IsGrant required probe now m x
GrantsWell required probe now (done refused, x) = Unit
GrantsWell required probe now (done (raised e), x) = Unit
GrantsWell required probe now (done waiting, x) = Unit
GrantsWell required probe now (again q, x) = Unit

master_grants :
    (required : ℕ) (probe : Probe) (now : ℕ) (healthy : List String) (x : NodePoolProxy)
    → healthy ≡ probe.healthy_nodes
    → ((master : String) → head? healthy ≡ some master → IsGrant required probe now master x)
    → GrantsWell required probe now (done (master_of healthy), x)
master_grants required probe now [] x e k = tt
master_grants required probe now (node ∷ nodes) x e k = k node refl

granted_grant :
    (required : ℕ) (probe : Probe)
    → MayGrant required probe
    → (bound : Bool) (now : ℕ) (x : NodePoolProxy)
    → GrantsWell required probe now (grant bound now probe.healthy_nodes x)
unfolding grant record_grant
granted_grant required probe may false now x = tt
granted_grant required probe may true now x =
    master_grants required probe now probe.healthy_nodes _ refl (λ master first. record {
      worked = may.0;
      enough = may.1;
      first = first;
      snapshot = refl;
      on_disk = refl;
      slots = write_slotsfile-some probe.healthy_nodes master _ first;
    })

-- What follows a call, with the proxy that the call leaves.
granted_after :
    (required : ℕ) (probe : Probe) (now : ℕ) {A : Type 0} (r : Result A × NodePoolProxy)
    (next : A → NodePoolProxy → Turn × NodePoolProxy)
    → ((a : A) → GrantsWell required probe now (next a r.1))
    → GrantsWell required probe now (turn_after r next)
granted_after required probe now (ok a, x) next k = k a
granted_after required probe now (err e, x) next k = tt

-- The proxy after the request for nodes with which a round begins, if it begins with one.
abbrev pub after_request : Bool → ℕ → Round → Request → NodePoolProxy → NodePoolProxy
after_request true slots round q x =
    (on_pool (apply_node_num_resources round.allocate q.actual_required_num slots) x).1
after_request false slots round q x = x

-- The health check of a round: of the nodes in the pool's file of running nodes.
abbrev pub checked : ℕ → Round → Request → NodePoolProxy → Probe
checked slots round q x =
    round.run_nhc (after_request q.need_apply slots round q x).node_pool.disk.running_lines

module _ (has_slurm : Bool) (required slots : ℕ) where
  module _ (round : Round) (probe : Probe) where
    abbrev Well : Turn × NodePoolProxy → Type 0
    Well = GrantsWell required probe round.now

    back_or_waiting :
        (q : Request) (is_back : Bool) (y : NodePoolProxy)
        → Well (if is_back then again q else done waiting, y)
    back_or_waiting q true y = tt
    back_or_waiting q false y = tt

    granted_short :
        (deficit : ℕ) (q : Request) (queued : Option ℕ) (x : NodePoolProxy)
        → Well (short_of has_slurm required slots round deficit q queued x)
    unfolding short_of
    granted_short deficit q none x = tt
    granted_short deficit q (some zero) x =
        granted_after required probe round.now
          (resubmit_job round.attempts (release_nodes round.now x)) _
          (λ is_back. back_or_waiting (record q { actual_required_num = required }) is_back _)
    granted_short deficit q (some (suc n)) x =
        granted_after required probe round.now
          (load_given round.run_nodes_nhc round.additional_lines x) _
          (λ additional.
            let y = (load_given round.run_nodes_nhc round.additional_lines x).1 in
            if_cases Well (ltb (suc n) q.actual_required_num || leb deficit (length additional)) _ _
              tt
              (granted_after required probe round.now
                (recover_nodes (round.run_nhc y.node_pool.disk.abnormal_lines) y) _ (λ _. tt)))

    granted_missing :
        probe.probe_ok ≡ true
        → (q : Request) (x : NodePoolProxy)
        → Well (still_missing has_slurm required slots round probe q x)
    unfolding still_missing
    granted_missing worked q x =
        let missing = required - length probe.healthy_nodes in
        let reported = report_faulty has_slurm required slots probe.faulty_nodes x in
        let next = record q { actual_required_num = missing } in
        if_cases Well (not has_slurm && ltb 0 missing) (done refused, x) _ tt
          (elim (Bool-cases (nat_eq missing 0)) [
            | inl e ↦ if_then Well (nat_eq missing 0) _ _ e (
                granted_grant required probe (worked, inr (ground (arith, e))) q.slots_bound
                  round.now reported)
            | inr e ↦ if_else Well (nat_eq missing 0) _ (again next, reported) e tt
          ])

    granted_queue :
        probe.probe_ok ≡ true
        → (q : Request) (queued : Option ℕ) (x : NodePoolProxy)
        → Well (queue_gone has_slurm required slots round probe q queued x)
    unfolding queue_gone
    granted_queue worked q none x = tt
    granted_queue worked q (some zero) x = tt
    granted_queue worked q (some (suc n)) x = granted_missing worked q x

    granted_faulty :
        probe.probe_ok ≡ true
        → (q : Request) (x : NodePoolProxy)
        → Well (with_faulty has_slurm required slots round probe q x)
    unfolding with_faulty
    granted_faulty worked q x =
        let retry = record q { need_apply = true } in
        let full = record retry { actual_required_num = required } in
        let y = (on_pool (add_abnormal_nodes probe.faulty_nodes) x).1 in
        granted_after required probe round.now (on_pool (add_abnormal_nodes probe.faulty_nodes) x) _
          (λ marked.
            if_cases Well marked.1 (again full, y) _ tt
              (if_cases Well (nat_eq required (length probe.faulty_nodes) && has_slurm) _ _
                (granted_queue worked retry round.later_count y) (granted_missing worked retry y)))

  granted_health :
      (round : Round) (q : Request) (x : NodePoolProxy)
      → GrantsWell required
          (round.run_nhc x.node_pool.disk.running_lines)
          round.now
          (check_health has_slurm required slots round q x)
  unfolding check_health
  granted_health round q x =
      let probe = round.run_nhc x.node_pool.disk.running_lines in
      let all = record q { actual_required_num = required } in
      let idle = record q { need_apply = false } in
      elim (Bool-cases probe.probe_ok) [
        | inr e ↦
            if_then (GrantsWell required probe round.now) (not probe.probe_ok) (again idle, x) _
              (ground (arith, e)) tt
        | inl e ↦
            if_else (GrantsWell required probe round.now) (not probe.probe_ok) (again idle, x) _
              (ground (arith, e))
              (elim (Bool-cases (is_empty probe.faulty_nodes)) [
                | inr f ↦
                    if_then (GrantsWell required probe round.now)
                      (not (is_empty probe.faulty_nodes)) _ _ (ground (arith, f))
                      (granted_faulty round probe e q x)
                | inl f ↦
                    if_else (GrantsWell required probe round.now)
                      (not (is_empty probe.faulty_nodes)) _ _ (ground (arith, f))
                      (if_cases (GrantsWell required probe round.now) (is_empty probe.healthy_nodes)
                        (again all, x) _ tt
                        (granted_grant required probe (e, inl f) q.slots_bound round.now x))
              ])
      ]

  granted_nodes :
      (round : Round) (count : ℕ) (q : Request) (x : NodePoolProxy)
      → GrantsWell required
          (round.run_nhc x.node_pool.disk.running_lines)
          round.now
          (with_nodes has_slurm required slots round count q x)
  unfolding with_nodes
  granted_nodes round count q x =
      let probe = round.run_nhc x.node_pool.disk.running_lines in
      if_cases (GrantsWell required probe round.now) (ltb count q.actual_required_num) _ _
        (if_cases (GrantsWell required probe round.now) has_slurm _ _
          (granted_short round probe (q.actual_required_num - count) q round.queue_count x) tt)
        (granted_health round q x)

  granted_asked :
      (asks : Bool) (round : Round) (q : Request) (x : NodePoolProxy)
      → GrantsWell required
          (round.run_nhc (after_request asks slots round q x).node_pool.disk.running_lines)
          round.now
          (if asks
            then turn_after
                (on_pool (apply_node_num_resources round.allocate q.actual_required_num slots) x)
                (λ answer y.
                  with_nodes has_slurm required slots round
                    (counted_nodes answer y)
                    (record q { slots_bound = bound_by q.slots_bound answer })
                    y)
            else with_nodes has_slurm required slots round (length x.node_pool.running_nodes) q x)
  granted_asked true round q x =
      granted_after required
        (round.run_nhc (after_request true slots round q x).node_pool.disk.running_lines) round.now
        (on_pool (apply_node_num_resources round.allocate q.actual_required_num slots) x) _
        (λ answer. granted_nodes round _ _ _)
  granted_asked false round q x = granted_nodes round (length x.node_pool.running_nodes) q x

  pub granted_round :
      (round : Round) (q : Request) (x : NodePoolProxy)
      → GrantsWell required
          (checked slots round q x)
          round.now
          (one_round has_slurm required slots round q x)
  unfolding one_round
  granted_round round q x = granted_asked q.need_apply round q x
