-- ===== src/NodePool/Partition/Rules.antt =====
-- The rules as an invariant, and `_validate_and_fix_constraints` under them.
use cluster_manager_das.Prelude.{
  ℕ, String, true, false, ◌++◌, ◌≡◌, ◌&&◌, ◌||◌, not, arith, is_empty,
}
use cluster_manager_das.Prelude.Names.{contains, inter, diff}
use cluster_manager_das.Prelude.Names.Laws.{contains-inter, contains-append}
use cluster_manager_das.Prelude.Names.Strip.{AllClean-inter}
use cluster_manager_das.Prelude.Exec.{Result, ok}
use cluster_manager_das.NodePool.State.{
  Disk, NodePool, fix_constraints, validate_and_fix_constraints, persist_all_nodes,
}
use cluster_manager_das.NodePool.Partition.Names.{
  IsNames, IsNames-deduplicate_and_sort, contains-deduplicate_and_sort, is_empty-inter,
  is_empty-diff,
}

-- "total_nodes = running ∪ backup ∪ abnormal", with no name in two of the three.
pub record IsPartition (p : NodePool) : Type 0 where
  pub names_total : IsNames p.total_nodes
  pub names_running : IsNames p.running_nodes
  pub names_backup : IsNames p.backup_nodes
  pub names_abnormal : IsNames p.abnormal_nodes
  pub names_last : IsNames p.last_running_nodes
  pub cover :
      (x : String)
      → contains x p.total_nodes
        ≡ (contains x p.running_nodes || contains x p.backup_nodes || contains x p.abnormal_nodes)
  pub running_backup :
      (x : String) → (contains x p.running_nodes && contains x p.backup_nodes) ≡ false
  pub running_abnormal :
      (x : String) → (contains x p.running_nodes && contains x p.abnormal_nodes) ≡ false
  pub backup_abnormal :
      (x : String) → (contains x p.backup_nodes && contains x p.abnormal_nodes) ≡ false

-- "normal_nodes = total_nodes - abnormal_nodes".
abbrev pub IsNormalSynced : NodePool → Type 0
IsNormalSynced p =
    (x : String)
    → contains x p.normal_nodes ≡ (contains x p.total_nodes && not (contains x p.abnormal_nodes))

module _ (p : NodePool) (h : IsPartition p) (x : String) where
  pub contains-fix_backup : contains x (fix_constraints p).backup_nodes ≡ contains x p.backup_nodes
  unfolding fix_constraints
  contains-fix_backup = ground (
    arith,
    contains-deduplicate_and_sort x (inter p.backup_nodes p.total_nodes)
        (AllClean-inter p.backup_nodes p.total_nodes h.names_backup.clean),
    contains-inter x p.backup_nodes p.total_nodes,
    h.cover x,
  )

  pub contains-fix_abnormal :
      contains x (fix_constraints p).abnormal_nodes ≡ contains x p.abnormal_nodes
  unfolding fix_constraints
  contains-fix_abnormal = ground (
    arith,
    contains-deduplicate_and_sort x (inter p.abnormal_nodes p.total_nodes)
        (AllClean-inter p.abnormal_nodes p.total_nodes h.names_abnormal.clean),
    contains-inter x p.abnormal_nodes p.total_nodes,
    h.cover x,
  )

module _ (p : NodePool) (h : IsPartition p) where
  pub fix_constraints-IsPartition : IsPartition (fix_constraints p)
  unfolding fix_constraints
  fix_constraints-IsPartition = record {
    names_total = h.names_total;
    names_running = h.names_running;
    names_backup = IsNames-deduplicate_and_sort _;
    names_abnormal = IsNames-deduplicate_and_sort _;
    names_last = h.names_last;
    cover = λ x. ground (arith, h.cover x, contains-fix_backup p h x, contains-fix_abnormal p h x);
    running_backup = λ x. ground (arith, h.running_backup x, contains-fix_backup p h x);
    running_abnormal = λ x. ground (arith, h.running_abnormal x, contains-fix_abnormal p h x);
    backup_abnormal = λ x.
        ground (arith, h.backup_abnormal x, contains-fix_backup p h x, contains-fix_abnormal p h x);
  }

  -- Under the rules no assertion fails.
  pub validate_lem : validate_and_fix_constraints p ≡ (ok tt, fix_constraints p)
  unfolding validate_and_fix_constraints
  validate_lem = rw (
    is_empty-inter p.running_nodes p.abnormal_nodes h.running_abnormal,
    is_empty-inter p.backup_nodes p.abnormal_nodes h.backup_abnormal,
    is_empty-inter p.running_nodes p.backup_nodes h.running_backup,
    covered,
  )
    where
      q : NodePool
      q = fix_constraints p

      covered :
          is_empty (diff p.total_nodes (q.running_nodes ++ q.backup_nodes ++ q.abnormal_nodes))
          ≡ true
      covered = is_empty-diff p.total_nodes _ λ x t. ground (
        arith,
        t,
        h.cover x,
        contains-fix_backup p h x,
        contains-fix_abnormal p h x,
        contains-append x (q.running_nodes ++ q.backup_nodes) q.abnormal_nodes,
        contains-append x q.running_nodes q.backup_nodes,
      )

  -- The rules say nothing of the files and the counter.
  pub IsPartition-aside :
      (d : Disk) (count : ℕ)
      → IsPartition (record p { disk = d; len_running_abnormal_nodes = count })
  IsPartition-aside d count = record {
    names_total = h.names_total;
    names_running = h.names_running;
    names_backup = h.names_backup;
    names_abnormal = h.names_abnormal;
    names_last = h.names_last;
    cover = h.cover;
    running_backup = h.running_backup;
    running_abnormal = h.running_abnormal;
    backup_abnormal = h.backup_abnormal;
  }

  pub persist_all_nodes-IsPartition : IsPartition (persist_all_nodes p)
  unfolding persist_all_nodes
  persist_all_nodes-IsPartition = IsPartition-aside _ p.len_running_abnormal_nodes

-- A call that raised nothing and left the rules in force.
pub record Kept {ℓ} {A : Type ℓ} (r : Result A × NodePool) : Type ℓ where
  pub value : A
  pub returned : r.0 ≡ ok value
  pub partition : IsPartition r.1

-- Validation and writing leave the normal nodes in step.
pub finished_synced :
    (p : NodePool)
    → IsPartition p
    → IsNormalSynced p
    → IsNormalSynced (persist_all_nodes (fix_constraints p))
unfolding persist_all_nodes
finished_synced p h s x = unfold fix_constraints in rw (contains-fix_abnormal p h x) (s x)
