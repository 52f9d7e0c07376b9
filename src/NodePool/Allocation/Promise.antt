-- ===== src/NodePool/Allocation/Promise.antt =====
-- What `apply_node_num_resources` promises: exactly the wanted number of nodes, none of them fatal,
-- degraded ones only where healthy ones are missing, and the rules of the pool.
use cluster_manager_das.Prelude.{
  ℕ, ◌+◌, ◌≤◌, String, Bool, true, false, List, ◌++◌, some, ◌≡◌, ◌∙◌, ◌&&◌, ◌||◌, not, arith,
  length, head?, is_empty, if◌then◌else◌, Bool-cases, Option-cases, inl, inr, leb, ltb, nat_eq,
}
use cluster_manager_das.Prelude.Names.{contains, inter}
use cluster_manager_das.Prelude.Names.Laws.{contains-inter}
use cluster_manager_das.Prelude.Exec.{ok}
use cluster_manager_das.NodePool.State.{NodePool, deduplicate_and_sort}
use cluster_manager_das.NodePool.Partition.Names.{
  IsNames, IsNames-deduplicate_and_sort, contains-deduplicate_and_sort, AllClean-of_subset,
}
use cluster_manager_das.NodePool.Partition.Rules.{IsPartition}
use cluster_manager_das.NodePool.Allocation.{
  AllocationResult, Allocate, group_candidates, get_available_nodes_with_blacklist,
  apply_node_num_resources,
}
use cluster_manager_das.NodePool.Allocation.Select.{select_nodes}
use cluster_manager_das.NodePool.Allocation.Plan.{IsGrouped, healthy_replace}
use cluster_manager_das.NodePool.Allocation.Chosen.{
  IsChosen, healthy_suffice, recycle_nodes_lem, select_fresh_lem, commit_lem, commit-IsPartition,
}

-- What the pool relies on in the blacklist: a node is in one group at most, and no fatal node is
-- offered, as healthy or as degraded.
pub record IsLawful (allocate : Allocate) (is_fatal : String → Bool) : Type 0 where
  pub apart :
      (candidates : List String) (n : ℕ) (r : AllocationResult)
      → allocate candidates n ≡ some r
      → (x : String) → (contains x r.healthy_nodes && contains x r.backup_nodes) ≡ false
  pub no_fatal :
      (candidates : List String) (n : ℕ) (r : AllocationResult)
      → allocate candidates n ≡ some r
      → (x : String) → (contains x r.healthy_nodes || contains x r.backup_nodes) ≡ true
      → is_fatal x ≡ false

pub contains-group :
    (backup : List String) (b : IsNames backup) (group : List String) (x : String)
    → contains x (deduplicate_and_sort (inter group backup))
      ≡ (contains x group && contains x backup)
contains-group backup b group x =
    contains-deduplicate_and_sort x (inter group backup) (
      AllClean-of_subset (inter group backup) backup b.clean
        (λ z m. ground (arith, contains-inter z group backup)))
    ∙ contains-inter x group backup

-- Whether the job takes its last nodes again.
abbrev pub reuses_last : NodePool → ℕ → Bool
reuses_last p n = not (is_empty p.last_running_nodes) && nat_eq n (length p.last_running_nodes)

-- Whether the healthy nodes are enough, in the mode that the request takes.
abbrev pub healthy_enough : NodePool → ℕ → List String → Bool
healthy_enough p n healthy =
    if reuses_last p n then healthy_suffice p healthy else leb n (length healthy)

module _ (p : NodePool) (h : IsPartition p) (healthy degraded : List String)
    (g : IsGrouped p.backup_nodes healthy degraded) (n : ℕ)
    (fits : n ≤ length healthy + length degraded) where
  select_nodes_lem :
      (new rest : List String) × (select_nodes n healthy degraded p
        ≡ (ok new, record p { backup_nodes = rest }))
      × IsChosen p healthy degraded (not (healthy_enough p n healthy)) n new rest
      × ((x : String)
          → reuses_last p n ≡ true
          → contains x p.last_running_nodes ≡ true
          → (contains x p.backup_nodes && contains x healthy) ≡ true
          → contains x new ≡ true)
  unfolding select_nodes
  select_nodes_lem = elim (Bool-cases (reuses_last p n)) [
    | inl e ↦
        let same : n ≡ length p.last_running_nodes = ground arith in
        let (new, rest, run) = recycle_nodes_lem p h healthy degraded g (rw (← same) fits) in
        rw (e, same) (new, rest, run.0, run.1, λ x _ l m. run.2 x l (ground arith))
    | inr e ↦
        let (new, rest, run, chosen) = select_fresh_lem p h healthy degraded g n fits in
        rw e (new, rest, run, chosen, λ x f. cc)
  ]

-- As many healthy nodes as are wanted are enough in both modes.
healthy_enough_lem :
    (p : NodePool)
    → IsPartition p
    → (healthy degraded : List String) → IsGrouped p.backup_nodes healthy degraded
    → (n : ℕ) → n ≤ length healthy
    → healthy_enough p n healthy ≡ true
healthy_enough_lem p h healthy degraded g n fits = elim (Bool-cases (reuses_last p n)) [
  | inl e ↦
      let same : n ≡ length p.last_running_nodes = ground arith in
      rw e (
        healthy_replace p.backup_nodes healthy degraded p.last_running_nodes h.names_backup g
          h.names_last (rw (← same) fits))
  | inr e ↦ rw e (ground (arith, fits))
]

-- What a successful request leaves: `new` are the nodes handed out, `q` is the pool after it.
pub record IsAllotted (allocate : Allocate) (is_fatal : String → Bool) (p : NodePool) (n : ℕ)
    (new : List String) (q : NodePool) : Type 0 where
  pub counted : length new ≡ n
  pub running : q.running_nodes ≡ p.running_nodes ++ new
  pub partition : IsPartition q
  pub from_backup : (x : String) → contains x new ≡ true → contains x p.backup_nodes ≡ true
  pub none_fatal : (x : String) → contains x new ≡ true → is_fatal x ≡ false
  pub healthy_first :
      n ≤ length (get_available_nodes_with_blacklist allocate p.backup_nodes).healthy
      → (x : String) → contains x new ≡ true
      → contains x (get_available_nodes_with_blacklist allocate p.backup_nodes).healthy ≡ true
  pub reused :
      reuses_last p n ≡ true
      → (x : String) → contains x p.last_running_nodes ≡ true
      → contains x (get_available_nodes_with_blacklist allocate p.backup_nodes).healthy ≡ true
      → contains x new ≡ true

module _ (allocate : Allocate) (is_fatal : String → Bool) (law : IsLawful allocate is_fatal)
    (p : NodePool) (h : IsPartition p) (r : AllocationResult)
    (answer : allocate p.backup_nodes (length p.backup_nodes) ≡ some r) where
  grouped :
      IsGrouped p.backup_nodes
        (deduplicate_and_sort (inter r.healthy_nodes p.backup_nodes))
        (deduplicate_and_sort (inter r.backup_nodes p.backup_nodes))
  grouped = record {
    names_healthy = IsNames-deduplicate_and_sort _;
    names_degraded = IsNames-deduplicate_and_sort _;
    healthy_there =
        λ x m. ground (arith, contains-group p.backup_nodes h.names_backup r.healthy_nodes x);
    degraded_there =
        λ x m. ground (arith, contains-group p.backup_nodes h.names_backup r.backup_nodes x);
    apart = λ x. ground (
      arith,
      contains-group p.backup_nodes h.names_backup r.healthy_nodes x,
      contains-group p.backup_nodes h.names_backup r.backup_nodes x,
      law.apart p.backup_nodes (length p.backup_nodes) r answer x,
    );
  }

  -- From a pool that follows its rules, where the blacklist keeps its law and answers, the backup
  -- nodes that it offers are enough for the request, the slots are positive and the slots file can
  -- be written, the request succeeds: it hands out exactly the wanted number of backup nodes, none
  -- of them fatal, only healthy ones where there are as many of those as are wanted, and every
  -- healthy node that ran last where the job takes its last nodes again; the running list grows by
  -- them, its first node is the master, and the rules of the pool hold.
  pub apply_node_num_resources_allots :
      (n slots : ℕ)
      → n
        ≤ length (get_available_nodes_with_blacklist allocate p.backup_nodes).healthy
          + length (get_available_nodes_with_blacklist allocate p.backup_nodes).degraded
      → 1 ≤ slots
      → p.disk.slots_writable ≡ true
      → (new : List String) × (q : NodePool) × (apply_node_num_resources allocate n slots p
          ≡ (ok (some (head? (p.running_nodes ++ new))), q))
        × IsAllotted allocate is_fatal p n new q
  unfolding apply_node_num_resources get_available_nodes_with_blacklist group_candidates
  apply_node_num_resources_allots n slots = rw answer λ fits positive writable.
      let healthy = deduplicate_and_sort (inter r.healthy_nodes p.backup_nodes) in
      let degraded = deduplicate_and_sort (inter r.backup_nodes p.backup_nodes) in
      let (new, rest, run, c, reused) = select_nodes_lem p h healthy degraded grouped n fits in
      let (q, done, part, running) =
        commit_lem p h healthy degraded _ n new rest c slots positive writable in
      let enough : ltb (length healthy + length degraded) n ≡ false = ground arith in
      let offered : (x : String)
          → contains x new ≡ true
          → (contains x r.healthy_nodes || contains x r.backup_nodes) ≡ true =
        λ x m. ground (
          arith,
          c.split.permitted x m,
          contains-group p.backup_nodes h.names_backup r.healthy_nodes x,
          contains-group p.backup_nodes h.names_backup r.backup_nodes x,
        ) in
      (
        new,
        q,
        rw (enough, run) done,
        record {
          counted = c.counted;
          running = running;
          partition = part;
          from_backup = λ x m. ground (arith, c.split.together x);
          none_fatal =
              λ x m. law.no_fatal p.backup_nodes (length p.backup_nodes) r answer x (offered x m);
          healthy_first = rw answer (λ fit x m. ground (
            arith,
            healthy_enough_lem p h healthy degraded grouped n fit,
            c.split.permitted x m,
          ));
          reused = rw answer (λ e x l m.
              reused x e l (
                ground (arith, m, contains-group p.backup_nodes h.names_backup r.healthy_nodes x)));
        },
      )

module _ (allocate : Allocate) (is_fatal : String → Bool) (law : IsLawful allocate is_fatal)
    (p : NodePool) (h : IsPartition p) where
  pub groups :
      IsGrouped p.backup_nodes
        (get_available_nodes_with_blacklist allocate p.backup_nodes).healthy
        (get_available_nodes_with_blacklist allocate p.backup_nodes).degraded
  unfolding get_available_nodes_with_blacklist group_candidates contains
  groups = elim (Option-cases (allocate p.backup_nodes (length p.backup_nodes))) [
    | inl e ↦ rw e (record {
      names_healthy = h.names_backup;
      names_degraded = record { clean = tt; nodup = tt };
      healthy_there = λ x m. m;
      degraded_there = λ x m. cc;
      apart = λ x. ground arith;
    })
    | inr (r, e) ↦ rw e (grouped allocate is_fatal law p h r e)
  ]

  -- A request keeps the rules whether it succeeds, is refused or raises.
  pub apply_node_num_resources-IsPartition :
      (n slots : ℕ) → IsPartition (apply_node_num_resources allocate n slots p).1
  unfolding apply_node_num_resources
  apply_node_num_resources-IsPartition n slots =
      elim (Bool-cases (ltb (length healthy + length degraded) n)) [
        | inl e ↦ rw e h
        | inr e ↦
            let (new, rest, run, c, _) =
              select_nodes_lem p h healthy degraded groups n (ground arith) in
            rw (e, run) (commit-IsPartition p h healthy degraded _ n new rest c slots)
      ]
    where
      healthy : List String
      healthy = (get_available_nodes_with_blacklist allocate p.backup_nodes).healthy

      degraded : List String
      degraded = (get_available_nodes_with_blacklist allocate p.backup_nodes).degraded
