-- ===== src/NodePool/Partition/Moved.antt =====
-- The lists after nodes are added to the pool or taken off the abnormal list, before validation.
use cluster_manager_das.Prelude.{String, true, false, List, ◌++◌, ◌≡◌, ◌∙◌, ◌&&◌, ◌||◌, not, arith}
use cluster_manager_das.Prelude.Names.{contains, diff}
use cluster_manager_das.Prelude.Names.Laws.{contains-diff, contains-append}
use cluster_manager_das.Prelude.Names.Strip.{AllClean, AllClean-diff, AllClean-append}
use cluster_manager_das.NodePool.State.{NodePool, deduplicate_and_sort}
use cluster_manager_das.NodePool.Marking.{extend_total, restore_to_backup, restore_to_running}
use cluster_manager_das.NodePool.Partition.Names.{
  IsNames-deduplicate_and_sort, contains-deduplicate_and_sort,
}
use cluster_manager_das.NodePool.Partition.Rules.{IsPartition}

module _ (p : NodePool) (h : IsPartition p) (new : List String) (c : AllClean new) where
  -- A list that takes in more clean names.
  pub contains-extended :
      (xs : List String) (x : String)
      → AllClean xs
      → contains x (deduplicate_and_sort (xs ++ new)) ≡ (contains x xs || contains x new)
  contains-extended xs x d =
      contains-deduplicate_and_sort x (xs ++ new) (AllClean-append xs new d c)
      ∙ contains-append x xs new

  pub contains-restored_abnormal :
      (x : String)
      → contains x (deduplicate_and_sort (diff p.abnormal_nodes new))
        ≡ (contains x p.abnormal_nodes && not (contains x new))
  contains-restored_abnormal x =
      contains-deduplicate_and_sort x (diff p.abnormal_nodes new)
        (AllClean-diff p.abnormal_nodes new h.names_abnormal.clean)
      ∙ contains-diff x p.abnormal_nodes new

  pub extend_total-IsPartition :
      ((x : String) → (contains x new && contains x p.total_nodes) ≡ false)
      → IsPartition (extend_total new p)
  unfolding extend_total
  extend_total-IsPartition fresh = record {
    names_total = IsNames-deduplicate_and_sort _;
    names_running = h.names_running;
    names_backup = IsNames-deduplicate_and_sort _;
    names_abnormal = h.names_abnormal;
    names_last = h.names_last;
    cover = λ x. ground (
      arith,
      h.cover x,
      contains-extended p.total_nodes x h.names_total.clean,
      contains-extended p.backup_nodes x h.names_backup.clean,
    );
    running_backup = λ x. ground (
      arith,
      h.cover x,
      fresh x,
      h.running_backup x,
      contains-extended p.backup_nodes x h.names_backup.clean,
    );
    running_abnormal = h.running_abnormal;
    backup_abnormal = λ x. ground (
      arith,
      h.cover x,
      fresh x,
      h.backup_abnormal x,
      contains-extended p.backup_nodes x h.names_backup.clean,
    );
  }

  module _ (sub : (x : String) → contains x new ≡ true → contains x p.abnormal_nodes ≡ true) where
    pub restore_to_backup-IsPartition : IsPartition (restore_to_backup new p)
    unfolding restore_to_backup
    restore_to_backup-IsPartition = record {
      names_total = h.names_total;
      names_running = h.names_running;
      names_backup = IsNames-deduplicate_and_sort _;
      names_abnormal = IsNames-deduplicate_and_sort _;
      names_last = h.names_last;
      cover = λ x. ground (
        arith,
        h.cover x,
        sub x,
        contains-restored_abnormal x,
        contains-extended p.backup_nodes x h.names_backup.clean,
      );
      running_backup = λ x. ground (
        arith,
        sub x,
        h.running_backup x,
        h.running_abnormal x,
        contains-extended p.backup_nodes x h.names_backup.clean,
      );
      running_abnormal = λ x. ground (arith, h.running_abnormal x, contains-restored_abnormal x);
      backup_abnormal = λ x. ground (
        arith,
        h.backup_abnormal x,
        contains-restored_abnormal x,
        contains-extended p.backup_nodes x h.names_backup.clean,
      );
    }

    pub restore_to_running-IsPartition : IsPartition (restore_to_running new p)
    unfolding restore_to_running
    restore_to_running-IsPartition = record {
      names_total = h.names_total;
      names_running = IsNames-deduplicate_and_sort _;
      names_backup = h.names_backup;
      names_abnormal = IsNames-deduplicate_and_sort _;
      names_last = h.names_last;
      cover = λ x. ground (
        arith,
        h.cover x,
        sub x,
        contains-restored_abnormal x,
        contains-extended p.running_nodes x h.names_running.clean,
      );
      running_backup = λ x. ground (
        arith,
        sub x,
        h.running_backup x,
        h.backup_abnormal x,
        contains-extended p.running_nodes x h.names_running.clean,
      );
      running_abnormal = λ x. ground (
        arith,
        h.running_abnormal x,
        contains-restored_abnormal x,
        contains-extended p.running_nodes x h.names_running.clean,
      );
      backup_abnormal = λ x. ground (arith, h.backup_abnormal x, contains-restored_abnormal x);
    }
