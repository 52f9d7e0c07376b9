-- ===== src/NodePool/Partition/Stale.antt =====
-- Two methods that do not bring the list of normal nodes up to date.
use cluster_manager_das.Prelude.{String, true, false, List, ◌++◌, ◌≡◌, refl, arith, is_empty, some}
use cluster_manager_das.Prelude.Names.{contains, diff, inter}
use cluster_manager_das.Prelude.Names.Laws.{contains-diff, contains-inter}
use cluster_manager_das.Prelude.Names.Strip.{AllClean-diff, AllClean-inter}
use cluster_manager_das.Prelude.Exec.{ok}
use cluster_manager_das.NodePool.State.{
  NodePool, success, deduplicate_and_sort, fix_constraints, persist_all_nodes,
}
use cluster_manager_das.NodePool.Marking.{
  extend_total, add_total_nodes, restore_to_backup, remove_abnormal_nodes,
}
use cluster_manager_das.NodePool.Partition.Names.{
  IsNames-deduplicate_and_sort, contains-of_is_empty, is_empty-diff,
}
use cluster_manager_das.NodePool.Partition.Rules.{
  IsPartition, IsNormalSynced, validate_lem, contains-fix_abnormal,
}
use cluster_manager_das.NodePool.Partition.Moved.{
  extend_total-IsPartition, restore_to_backup-IsPartition, contains-extended,
  contains-restored_abnormal,
}

module _ (p : NodePool) (h : IsPartition p) (nodes : List String) (x : String)
    (m : contains x (deduplicate_and_sort nodes) ≡ true) where
  new_nodes : List String
  new_nodes = diff (deduplicate_and_sort nodes) p.total_nodes

  extended : IsPartition (extend_total new_nodes p)
  unfolding new_nodes
  extended =
      extend_total-IsPartition p h _ (AllClean-diff _ _ (IsNames-deduplicate_and_sort nodes).clean)
        λ z. ground (arith, contains-diff z (deduplicate_and_sort nodes) p.total_nodes)

  -- Adding a node that the pool, under its rules, did not have answers with the new nodes, and
  -- leaves the list of normal nodes as it was: if it was in step before, it is not in step any
  -- more.
  pub add_total_nodes_stale :
      contains x p.total_nodes ≡ false
      → IsNormalSynced p
      → (q : NodePool) × (add_total_nodes nodes p
          ≡ (ok (some (diff (deduplicate_and_sort nodes) p.total_nodes)), q))
        × (q.normal_nodes ≡ p.normal_nodes)
        × (contains x q.total_nodes ≡ true)
        × (¬ IsNormalSynced q)
  unfolding add_total_nodes extend_total persist_all_nodes fix_constraints new_nodes
  add_total_nodes_stale t synced =
      let some_new : is_empty new_nodes ≡ false = ground (
        arith,
        contains-diff x (deduplicate_and_sort nodes) p.total_nodes,
        contains-of_is_empty x new_nodes,
      ) in
      let in_total : contains x (deduplicate_and_sort (p.total_nodes ++ new_nodes)) ≡ true =
        ground (
          arith,
          contains-extended p h new_nodes
              (AllClean-diff _ _ (IsNames-deduplicate_and_sort nodes).clean) p.total_nodes x
              h.names_total.clean,
          contains-diff x (deduplicate_and_sort nodes) p.total_nodes,
        ) in
      (
        persist_all_nodes (fix_constraints (extend_total new_nodes p)),
        rw (some_new, validate_lem _ extended),
        refl,
        in_total,
        λ s. ground (
          arith,
          s x,
          synced x,
          h.cover x,
          contains-fix_abnormal (extend_total new_nodes p) extended x,
        ),
      )

module _ (p : NodePool) (h : IsPartition p) (nodes : List String) (x : String)
    (m : contains x (deduplicate_and_sort nodes) ≡ true) where
  back : List String
  back = inter (deduplicate_and_sort nodes) p.abnormal_nodes

  sub_back : (z : String) → contains z back ≡ true → contains z p.abnormal_nodes ≡ true
  unfolding back
  sub_back z n = ground (arith, contains-inter z (deduplicate_and_sort nodes) p.abnormal_nodes)

  clean_back : IsPartition (restore_to_backup back p)
  unfolding back
  clean_back =
      restore_to_backup-IsPartition p h _
        (AllClean-inter _ _ (IsNames-deduplicate_and_sort nodes).clean) sub_back

  -- In a pool that follows its rules, with its normal nodes in step, taking an abnormal node back
  -- to the backup list by `remove_abnormal_nodes`, among nodes of the total, succeeds, and neither
  -- the list of normal nodes nor any file follows: the normal list is out of step afterwards.
  pub remove_abnormal_nodes_stale :
      ((z : String)
        → contains z (deduplicate_and_sort nodes) ≡ true
        → contains z p.total_nodes ≡ true)
      → contains x p.abnormal_nodes ≡ true
      → IsNormalSynced p
      → (q : NodePool) × (remove_abnormal_nodes nodes "backup" p ≡ (ok (success, true), q))
        × (contains x q.abnormal_nodes ≡ false)
        × (q.disk ≡ p.disk)
        × (¬ IsNormalSynced q)
  unfolding remove_abnormal_nodes restore_to_backup fix_constraints back
  remove_abnormal_nodes_stale sub a synced =
      let some_back : is_empty back ≡ false = ground (
        arith,
        contains-inter x (deduplicate_and_sort nodes) p.abnormal_nodes,
        contains-of_is_empty x back,
      ) in
      let gone : contains x (fix_constraints (restore_to_backup back p)).abnormal_nodes ≡ false =
        ground (
          arith,
          contains-fix_abnormal (restore_to_backup back p) clean_back x,
          contains-restored_abnormal p h back
              (AllClean-inter _ _ (IsNames-deduplicate_and_sort nodes).clean) x,
          contains-inter x (deduplicate_and_sort nodes) p.abnormal_nodes,
        ) in
      (
        fix_constraints (restore_to_backup back p),
        rw (is_empty-diff _ _ sub, some_back, validate_lem _ clean_back),
        gone,
        refl,
        λ s. ground (arith, s x, synced x, h.cover x, gone),
      )
