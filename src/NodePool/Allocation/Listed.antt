-- ===== src/NodePool/Allocation/Listed.antt =====
-- `apply_node_list_resources` hands out a node for each target, and keeps the rules of the pool.
use cluster_manager_das.Prelude.{
  ℕ, some, head?, ◌+◌, ◌≤◌, length-append, String, Bool, true, false, List, [], ◌++◌, ◌≡◌, refl,
  ◌||◌, arith, Bool-cases, inl, inr, length, is_empty, ltb,
}
use cluster_manager_das.Prelude.Names.{contains}
use cluster_manager_das.Prelude.Names.Laws.{contains-append, IsNodup-append}
use cluster_manager_das.Prelude.Exec.{ok}
use cluster_manager_das.NodePool.State.{NodePool}
use cluster_manager_das.NodePool.Partition.Rules.{IsPartition}
use cluster_manager_das.NodePool.Allocation.{
  Allocate, Available, get_available_nodes_with_blacklist, apply_node_list_resources,
}
use cluster_manager_das.NodePool.Allocation.Select.{select_targets}
use cluster_manager_das.NodePool.Allocation.Moves.{IsSplit}
use cluster_manager_das.NodePool.Allocation.Plan.{IsGrouped}
use cluster_manager_das.NodePool.Allocation.Chosen.{commit-IsPartition, commit_lem}
use cluster_manager_das.NodePool.Allocation.Loop.{is_allowed}
use cluster_manager_das.NodePool.Allocation.Promise.{IsLawful, groups}
use cluster_manager_das.NodePool.Allocation.Targets.{assign_targets_lem}

-- What a successful request for given nodes leaves: `new` are the nodes handed out, `q` is the pool
-- after it, and `a` what the blacklist offered.
pub record IsListed (p : NodePool) (a : Available) (targets new : List String) (q : NodePool)
    : Type 0 where
  pub counted : length new ≡ length targets
  pub running : q.running_nodes ≡ p.running_nodes ++ new
  pub partition : IsPartition q
  pub from_backup : (x : String) → contains x new ≡ true → contains x p.backup_nodes ≡ true
  pub offered :
      (x : String) → contains x new ≡ true → (contains x a.healthy || contains x a.degraded) ≡ true
  pub taken :
      (x : String)
      → contains x targets ≡ true
      → (contains x a.healthy || contains x a.degraded) ≡ true
      → contains x new ≡ true

module _ (allocate : Allocate) (is_fatal : String → Bool) (law : IsLawful allocate is_fatal)
    (p : NodePool) (h : IsPartition p) where
  select_targets_lem :
      (targets healthy degraded : List String)
      → IsGrouped p.backup_nodes healthy degraded
      → (new rest : List String) × (select_targets targets healthy degraded p
          ≡ (ok new, record p { backup_nodes = rest }))
        × IsSplit p.backup_nodes (is_allowed healthy degraded true) new rest
        × (length targets ≤ length healthy + length degraded → length new ≡ length targets)
        × ((x : String)
            → contains x targets ≡ true
            → (contains x healthy || contains x degraded) ≡ true
            → contains x new ≡ true)
  unfolding select_targets contains
  select_targets_lem targets healthy degraded g =
      let (u, run, k, g2) =
        assign_targets_lem p.backup_nodes healthy degraded targets
          (record {
            healthy_set = healthy;
            degraded_set = degraded;
            draft = record { standby = healthy ++ degraded; new = []; backup = p.backup_nodes };
          })
          (record {
            split = record {
              nodup_new = tt;
              nodup_backup = h.names_backup.nodup;
              disjoint = λ x. refl;
              together = λ x. refl;
              permitted = λ x m. cc;
            };
            nodup_healthy = g.names_healthy.nodup;
            nodup_degraded = g.names_degraded.nodup;
            nodup_standby =
                IsNodup-append healthy degraded g.names_healthy.nodup g.names_degraded.nodup
                  g.apart;
            apart = g.apart;
            standby_free = λ x. contains-append x healthy degraded;
            there = λ x m. ground (
              arith,
              m,
              contains-append x healthy degraded,
              g.healthy_there x,
              g.degraded_there x,
            );
            allowed = λ x m. ground (arith, m, contains-append x healthy degraded);
          }) in
      (
        u.draft.new,
        u.draft.backup,
        rw run refl,
        k.split,
        λ fits. omega (arith, g2.counted (omega (arith, fits, length-append healthy degraded))),
        λ x m s. g2.taken x m (ground (arith, s, contains-append x healthy degraded)),
      )

  -- From a pool that follows its rules, with a blacklist that keeps its law, positive slots and a slots
  -- file that can be written, a request for given nodes, one or more and no more than the blacklist
  -- offers (all backup nodes where it raises), succeeds: it hands out as many nodes as are given, all
  -- of them backup nodes that are offered, and among them every given node that is offered; the
  -- running list grows by them, its first node is the master, and the rules of the pool hold.
  pub apply_node_list_resources_allots :
      (targets : List String) (slots : ℕ)
      → is_empty targets ≡ false
      → length targets
        ≤ length (get_available_nodes_with_blacklist allocate p.backup_nodes).healthy
          + length (get_available_nodes_with_blacklist allocate p.backup_nodes).degraded
      → 1 ≤ slots
      → p.disk.slots_writable ≡ true
      → (new : List String) × (q : NodePool) × (apply_node_list_resources allocate targets slots p
          ≡ (ok (some (head? (p.running_nodes ++ new))), q))
        × IsListed p (get_available_nodes_with_blacklist allocate p.backup_nodes) targets new q
  unfolding apply_node_list_resources
  apply_node_list_resources_allots targets slots some_target fits positive writable =
      let a = get_available_nodes_with_blacklist allocate p.backup_nodes in
      let (new, rest, run, s, counted, taken) =
        select_targets_lem targets a.healthy a.degraded (groups allocate is_fatal law p h) in
      let (q, done, part, running) =
        commit_lem p h a.healthy a.degraded true (length new) new rest
          (record { split = s; counted = refl }) slots positive writable in
      let enough : ltb (length a.healthy + length a.degraded) (length targets) ≡ false =
        ground (arith, fits) in
      (
        new,
        q,
        rw (some_target, enough, run) done,
        record {
          counted = counted fits;
          running = running;
          partition = part;
          from_backup = λ x m. ground (arith, m, s.together x);
          offered = λ x m. ground (arith, s.permitted x m);
          taken = taken;
        },
      )

  -- A request for given nodes keeps the rules whether it succeeds, is refused or raises.
  pub apply_node_list_resources-IsPartition :
      (targets : List String) (slots : ℕ)
      → IsPartition (apply_node_list_resources allocate targets slots p).1
  unfolding apply_node_list_resources
  apply_node_list_resources-IsPartition targets slots = elim (Bool-cases (is_empty targets)) [
    | inl e ↦ rw e h
    | inr e ↦ elim (Bool-cases (ltb (length healthy + length degraded) (length targets))) [
      | inl f ↦ rw (e, f) h
      | inr f ↦
          let (new, rest, run, s, _, _) =
            select_targets_lem targets healthy degraded (groups allocate is_fatal law p h) in
          rw (e, f, run)
            (commit-IsPartition p h healthy degraded true (length new) new rest
              (record { split = s; counted = refl }) slots)
    ]
  ]
    where
      healthy : List String
      healthy = (get_available_nodes_with_blacklist allocate p.backup_nodes).healthy

      degraded : List String
      degraded = (get_available_nodes_with_blacklist allocate p.backup_nodes).degraded
