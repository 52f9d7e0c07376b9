-- ===== src/NodePool/Partition/Resetting.antt =====
-- `reset_node_pool`, on both sides of its check.
use cluster_manager_das.Prelude.{
  String, true, false, List, [], ◌≡◌, refl, ◌∙◌, ◌&&◌, not, arith, is_empty,
}
use cluster_manager_das.Prelude.Names.{contains, diff}
use cluster_manager_das.Prelude.Names.Laws.{contains-diff}
use cluster_manager_das.Prelude.Names.Strip.{AllClean-diff}
use cluster_manager_das.Prelude.Exec.{ok, err, value_error}
use cluster_manager_das.NodePool.State.{
  NodePool, deduplicate_and_sort, fix_constraints, persist_all_nodes, sync_normal_nodes,
}
use cluster_manager_das.NodePool.Marking.{reset_lists, reset_backup, reset_node_pool}
use cluster_manager_das.NodePool.Partition.Names.{
  IsNames-deduplicate_and_sort, contains-deduplicate_and_sort, contains-of_is_empty, is_empty-diff,
}
use cluster_manager_das.NodePool.Partition.Rules.{
  IsPartition, IsNormalSynced, fix_constraints-IsPartition, validate_lem,
  persist_all_nodes-IsPartition, contains-fix_abnormal, contains-fix_backup,
}
use cluster_manager_das.NodePool.Partition.Marked.{IsNames-nil}

module _ (p : NodePool) (total abnormal : List String)
    (sub : (x : String)
      → contains x (deduplicate_and_sort abnormal) ≡ true
      → contains x (deduplicate_and_sort total) ≡ true) where
  before_validation : NodePool
  before_validation = reset_backup (sync_normal_nodes (reset_lists total abnormal p))

  contains-rest :
      (x : String)
      → contains x
          (deduplicate_and_sort (diff (deduplicate_and_sort total) (deduplicate_and_sort abnormal)))
        ≡ (contains x (deduplicate_and_sort total)
            && not (contains x (deduplicate_and_sort abnormal)))
  contains-rest x =
      contains-deduplicate_and_sort x _
        (AllClean-diff _ _ (IsNames-deduplicate_and_sort total).clean)
      ∙ contains-diff x _ _

  before_validation-IsPartition : IsPartition before_validation
  unfolding before_validation reset_backup sync_normal_nodes reset_lists contains
  before_validation-IsPartition = record {
    names_total = IsNames-deduplicate_and_sort total;
    names_running = IsNames-nil;
    names_backup = IsNames-deduplicate_and_sort _;
    names_abnormal = IsNames-deduplicate_and_sort abnormal;
    names_last = IsNames-nil;
    cover = λ x. ground (arith, sub x, contains-rest x);
    running_backup = λ x. refl;
    running_abnormal = λ x. refl;
    backup_abnormal = λ x. ground (arith, contains-rest x);
  }

  -- A reset whose abnormal nodes all belong to the new total succeeds from any pool: afterwards the
  -- rules hold, the normal nodes are in step, nothing runs, and every other node is a backup node.
  pub reset_node_pool_accepts :
      (q : NodePool) × (reset_node_pool total abnormal p ≡ (ok tt, q))
      × IsPartition q
      × IsNormalSynced q
      × (q.running_nodes ≡ [])
      × ((x : String)
          → contains x q.backup_nodes ≡ (
              contains x (deduplicate_and_sort total)
              && not (contains x (deduplicate_and_sort abnormal))))
  unfolding reset_node_pool reset_backup sync_normal_nodes reset_lists persist_all_nodes
      fix_constraints before_validation
  reset_node_pool_accepts =
      let b = before_validation-IsPartition in
      (
        persist_all_nodes (fix_constraints before_validation),
        rw (is_empty-diff _ _ sub, validate_lem before_validation b),
        persist_all_nodes-IsPartition _ (fix_constraints-IsPartition before_validation b),
        λ x. ground (arith, contains-rest x, contains-fix_abnormal before_validation b x),
        refl,
        λ x. contains-fix_backup before_validation b x ∙ contains-rest x,
      )

-- A reset with an abnormal node outside the new total raises `ValueError`, and leaves the pool with
-- its rules broken: the lists were written before the check.
pub reset_node_pool_refuses :
    (p : NodePool) (total abnormal : List String) (x : String)
    → contains x (deduplicate_and_sort abnormal) ≡ true
    → contains x (deduplicate_and_sort total) ≡ false
    → ((reset_node_pool total abnormal p).0 ≡ err value_error)
      × (¬ IsPartition (reset_node_pool total abnormal p).1)
unfolding reset_node_pool reset_lists
reset_node_pool_refuses p total abnormal x a t =
    let e : is_empty (diff (deduplicate_and_sort abnormal) (deduplicate_and_sort total)) ≡ false =
      ground (
        arith,
        contains-diff x (deduplicate_and_sort abnormal) (deduplicate_and_sort total),
        contains-of_is_empty x (diff (deduplicate_and_sort abnormal) (deduplicate_and_sort total)),
      ) in
    (rw e, rw e (λ h. ground (arith, h.cover x)))
