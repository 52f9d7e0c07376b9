-- ===== src/NodePool/Allocation/Chosen.antt =====
-- Each mode of `apply_node_num_resources` chooses as many nodes as are wanted, and handing them over
-- keeps the rules of the pool.
use cluster_manager_das.Prelude.{
  ℕ, ◌+◌, ◌≤◌, String, Bool, true, false, List, [], ◌++◌, some, ◌≡◌, refl, not, arith, length,
  head?, Bool-cases, ◌⊎◌, inl, inr, leb, ltb, map,
}
use cluster_manager_das.Prelude.Names.{contains}
use cluster_manager_das.Prelude.Names.Laws.{contains-append, IsNodup-append}
use cluster_manager_das.Prelude.Names.Strip.{AllClean-append}
use cluster_manager_das.Prelude.Exec.{ok, err, PyError, value_error, runtime_error}
use cluster_manager_das.NodePool.State.{
  NodePool, fix_constraints, persist_all_nodes, write_slots_running_nodes_file,
}
use cluster_manager_das.NodePool.Partition.Names.{IsNames-deduplicate_and_sort, AllClean-of_subset}
use cluster_manager_das.NodePool.Partition.Rules.{
  IsPartition, IsPartition-aside, fix_constraints-IsPartition, validate_lem,
  persist_all_nodes-IsPartition,
}
use cluster_manager_das.NodePool.Allocation.{commit_running, extend_running}
use cluster_manager_das.NodePool.Allocation.Select.{
  standby_plan, recycle_nodes, select_fresh, replacements_needed, fresh_nodes,
}
use cluster_manager_das.NodePool.Allocation.Moves.{IsSplit}
use cluster_manager_das.NodePool.Allocation.Loop.{is_allowed, is_reusable, IsReady, recycle_lem}
use cluster_manager_das.NodePool.Allocation.Plan.{
  IsGrouped, enough_degraded, enough_healthy, ready, contains-standby, standby-IsNodup, standby_of,
}
use cluster_manager_das.NodePool.Allocation.Fresh.{
  remove_all_lem, length-fresh_nodes, fresh_nodes-IsNodup, fresh_nodes_allowed,
}

-- The nodes `new` are taken from the pool `p`, and `rest` is the backup list without them.
pub record IsChosen (p : NodePool) (healthy degraded : List String) (allow : Bool) (count : ℕ)
    (new rest : List String) : Type 0 where
  pub split : IsSplit p.backup_nodes (is_allowed healthy degraded allow) new rest
  pub counted : length new ≡ count

-- Whether the healthy standby nodes suffice to replace the last running nodes that are not healthy.
abbrev pub healthy_suffice : NodePool → List String → Bool
healthy_suffice p healthy =
    leb (replacements_needed p.backup_nodes healthy p.last_running_nodes)
      (length (standby_of p.backup_nodes p.last_running_nodes healthy))

module _ (p : NodePool) (h : IsPartition p) (healthy degraded : List String)
    (g : IsGrouped p.backup_nodes healthy degraded) where
  abbrev pub Recycled : Bool → List String → List String → Type 0
  Recycled allow new rest =
      (recycle_nodes (length p.last_running_nodes) healthy degraded p
        ≡ (ok new, record p { backup_nodes = rest }))
      × IsChosen p healthy degraded allow (length p.last_running_nodes) new rest
      × ((x : String)
          → contains x p.last_running_nodes ≡ true
          → is_reusable p.backup_nodes healthy degraded allow x ≡ true
          → contains x new ≡ true)

  recycle_ends :
      (allow : Bool) (standby : List String)
      → standby_plan p.backup_nodes healthy degraded p.last_running_nodes ≡ (standby, allow)
      → IsReady p.backup_nodes healthy degraded allow p.last_running_nodes
          (record { standby = standby; new = []; backup = p.backup_nodes })
      → (new rest : List String) × Recycled allow new rest
  unfolding recycle_nodes
  recycle_ends allow standby plan r =
      let (d, run, f) =
        recycle_lem p.backup_nodes healthy degraded allow (length p.last_running_nodes)
          p.last_running_nodes standby [] p.backup_nodes r (omega arith) in
      (d.new, d.backup, (rw (plan, run), record { split = f.split; counted = f.filled }, f.reused))

  -- The mode that uses the last nodes again takes as many nodes as ran, whichever plan it follows.
  pub recycle_nodes_lem :
      length p.last_running_nodes ≤ length healthy + length degraded
      → (new rest : List String) × Recycled (not (healthy_suffice p healthy)) new rest
  recycle_nodes_lem fits = elim (Bool-cases (healthy_suffice p healthy)) [
    | inl e ↦ rw e (
        recycle_ends false (standby_of p.backup_nodes p.last_running_nodes healthy)
          (unfold standby_plan in rw e)
          (ready p.backup_nodes healthy degraded p.last_running_nodes h.names_backup g h.names_last
            false _ (IsNames-deduplicate_and_sort _).nodup
            (enough_healthy p.backup_nodes healthy degraded p.last_running_nodes h.names_backup g
              h.names_last e)
            λ x m. ground (
              arith,
              contains-standby p.backup_nodes healthy degraded p.last_running_nodes h.names_backup g
                  h.names_last x healthy,
            )))
    | inr e ↦ rw e (
        recycle_ends true
          (standby_of p.backup_nodes p.last_running_nodes healthy
            ++ standby_of p.backup_nodes p.last_running_nodes degraded)
          (unfold standby_plan in rw e)
          (ready p.backup_nodes healthy degraded p.last_running_nodes h.names_backup g h.names_last
            true _
            (standby-IsNodup p.backup_nodes healthy degraded p.last_running_nodes h.names_backup g
              h.names_last)
            (enough_degraded p.backup_nodes healthy degraded p.last_running_nodes h.names_backup g
              h.names_last fits)
            λ x m. ground (
              arith,
              contains-append x (standby_of p.backup_nodes p.last_running_nodes healthy)
                  (standby_of p.backup_nodes p.last_running_nodes degraded),
              contains-standby p.backup_nodes healthy degraded p.last_running_nodes h.names_backup g
                  h.names_last x healthy,
              contains-standby p.backup_nodes healthy degraded p.last_running_nodes h.names_backup g
                  h.names_last x degraded,
            )))
  ]

  -- The mode of a first allocation takes the wanted number of nodes.
  pub select_fresh_lem :
      (n : ℕ)
      → n ≤ length healthy + length degraded
      → (new rest : List String) × (select_fresh n healthy degraded p
          ≡ (ok new, record p { backup_nodes = rest }))
        × IsChosen p healthy degraded (not (leb n (length healthy))) n new rest
  unfolding select_fresh
  select_fresh_lem n fits =
      let new = fresh_nodes n healthy degraded in
      let allowed = fresh_nodes_allowed p.backup_nodes healthy degraded g n fits in
      let nodup = fresh_nodes-IsNodup p.backup_nodes healthy degraded g n fits in
      let there : (x : String) → contains x new ≡ true → contains x p.backup_nodes ≡ true =
        λ x m. ground (arith, allowed x m, g.healthy_there x, g.degraded_there x) in
      let (rest, run, d, same) =
        remove_all_lem new [] new p.backup_nodes nodup h.names_backup.nodup there in
      (
        new,
        rest,
        rw run,
        record {
          split = record {
            nodup_new = nodup;
            nodup_backup = d;
            disjoint = λ x. ground (arith, same x);
            together = λ x. ground (arith, same x, there x);
            permitted = allowed;
          };
          counted = length-fresh_nodes p.backup_nodes healthy degraded g n fits;
        },
      )

abbrev with_slots : ℕ → NodePool → NodePool
with_slots slots p = record p {
  disk = record p.disk { slots_lines = map (λ node. (node, slots)) p.running_nodes };
}

with_slots-IsPartition :
    (slots : ℕ) (p : NodePool) → IsPartition p → IsPartition (with_slots slots p)
with_slots-IsPartition slots p h = IsPartition-aside p h _ p.len_running_abnormal_nodes

-- Writing the slots file changes that file alone, and a refusal changes nothing.
write_slots_cases :
    (slots : ℕ) (p : NodePool)
    → (write_slots_running_nodes_file slots p ≡ (ok tt, with_slots slots p))
      ⊎ ((e : PyError) × (write_slots_running_nodes_file slots p ≡ (err e, p)))
unfolding write_slots_running_nodes_file
write_slots_cases slots p = elim (Bool-cases (ltb slots 1)) [
  | inl z ↦ inr (value_error, ground arith)
  | inr z ↦ elim (Bool-cases p.disk.slots_writable) [
    | inl w ↦ inl (ground arith)
    | inr w ↦ inr (runtime_error, ground arith)
  ]
]

module _ (p : NodePool) (h : IsPartition p) (healthy degraded : List String) (allow : Bool)
    (count : ℕ) (new rest : List String)
    (c : IsChosen p healthy degraded allow count new rest) where
  handed : NodePool
  handed = extend_running new (record p { backup_nodes = rest })

  handed-IsPartition : IsPartition handed
  unfolding handed extend_running
  handed-IsPartition = record {
    names_total = h.names_total;
    names_running = record {
      clean = AllClean-append p.running_nodes new h.names_running.clean (
          AllClean-of_subset new p.backup_nodes h.names_backup.clean
            (λ x m. ground (arith, c.split.together x)));
      nodup =
          IsNodup-append p.running_nodes new h.names_running.nodup c.split.nodup_new
            (λ x. ground (arith, h.running_backup x, c.split.together x));
    };
    names_backup = record {
      clean =
          AllClean-of_subset rest p.backup_nodes h.names_backup.clean
            (λ x m. ground (arith, c.split.together x));
      nodup = c.split.nodup_backup;
    };
    names_abnormal = h.names_abnormal;
    names_last = h.names_last;
    cover =
        λ x. ground (arith, h.cover x, c.split.together x, contains-append x p.running_nodes new);
    running_backup = λ x. ground (
      arith,
      h.running_backup x,
      c.split.together x,
      c.split.disjoint x,
      contains-append x p.running_nodes new,
    );
    running_abnormal = λ x. ground (
      arith,
      h.running_abnormal x,
      h.backup_abnormal x,
      c.split.together x,
      contains-append x p.running_nodes new,
    );
    backup_abnormal = λ x. ground (arith, h.backup_abnormal x, c.split.together x);
  }

  -- Handing the chosen nodes to the job keeps the rules, if the number of slots is positive and the
  -- slots file can be written.
  pub commit_lem :
      (slots : ℕ)
      → 1 ≤ slots
      → p.disk.slots_writable ≡ true
      → (q : NodePool) × (commit_running slots new (record p { backup_nodes = rest })
          ≡ (ok (some (head? (p.running_nodes ++ new))), q))
        × IsPartition q
        × (q.running_nodes ≡ p.running_nodes ++ new)
  unfolding commit_running write_slots_running_nodes_file extend_running fix_constraints handed
      persist_all_nodes
  commit_lem slots positive writable =
      let not_zero : ltb slots 1 ≡ false = ground arith in
      (
        persist_all_nodes (with_slots slots (fix_constraints handed)),
        rw (validate_lem handed handed-IsPartition, not_zero, writable),
        persist_all_nodes-IsPartition _ (
            with_slots-IsPartition slots _ (fix_constraints-IsPartition handed handed-IsPartition)),
        refl,
      )

  -- Whatever the slots and whether or not the file can be written, handing over keeps the rules.
  pub commit-IsPartition :
      (slots : ℕ) → IsPartition (commit_running slots new (record p { backup_nodes = rest })).1
  unfolding commit_running extend_running handed
  commit-IsPartition slots =
      let f = fix_constraints-IsPartition handed handed-IsPartition in
      rw (validate_lem handed handed-IsPartition)
        (elim (write_slots_cases slots (fix_constraints handed)) [
          | inl e ↦ rw e (persist_all_nodes-IsPartition _ (with_slots-IsPartition slots _ f))
          | inr (x, e) ↦ rw e f
        ])
