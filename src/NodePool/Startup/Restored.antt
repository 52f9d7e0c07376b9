-- ===== src/NodePool/Startup/Restored.antt =====
-- What holds of a pool that has started.
use cluster_manager_das.Prelude.{
  String, true, false, List, [], ◌∷◌, some, ◌≡◌, refl, ◌∙◌, arith, is_empty,
}
use cluster_manager_das.Prelude.Names.{contains, diff, inter, dedup, sort}
use cluster_manager_das.Prelude.Names.Laws.{contains-diff}
use cluster_manager_das.Prelude.Names.Strip.{AllClean-diff, valid_nodes}
use cluster_manager_das.Hostfile.{read_hostfile}
use cluster_manager_das.NodePool.State.{
  Disk, NodePool, deduplicate_and_sort, sync_normal_nodes, sync_backup_nodes, fix_constraints,
  persist_all_nodes,
}
use cluster_manager_das.NodePool.Startup.{
  names_equal, new_lists, check_and_sync_total_nodes, init_node_pool,
}
use cluster_manager_das.NodePool.Partition.Names.{
  IsNames, IsNames-deduplicate_and_sort, contains-deduplicate_and_sort,
}
use cluster_manager_das.NodePool.Partition.Rules.{
  IsPartition, IsNormalSynced, fix_constraints-IsPartition, validate_lem,
  persist_all_nodes-IsPartition, finished_synced, contains-fix_backup,
}
use cluster_manager_das.NodePool.Partition.Marked.{IsNames-nil}

module _ (total : List String) (t : IsNames total) (disk : Disk) where
  contains-new_normal :
      (x : String) → contains x (deduplicate_and_sort (diff total [])) ≡ contains x total
  contains-new_normal x =
      contains-deduplicate_and_sort x (diff total []) (AllClean-diff total [] t.clean)
      ∙ unfold contains in ground (arith, contains-diff x total [])

  contains-new_backup :
      (x : String)
      → contains x (deduplicate_and_sort (diff (deduplicate_and_sort (diff total [])) []))
        ≡ contains x total
  contains-new_backup x =
      contains-deduplicate_and_sort x _
        (AllClean-diff _ [] (IsNames-deduplicate_and_sort (diff total [])).clean)
      ∙ unfold contains in
        ground
          (arith, contains-diff x (deduplicate_and_sort (diff total [])) [], contains-new_normal x)

  new_lists-IsPartition : IsPartition (new_lists total disk)
  unfolding new_lists sync_backup_nodes sync_normal_nodes contains
  new_lists-IsPartition = record {
    names_total = t;
    names_running = IsNames-nil;
    names_backup = IsNames-deduplicate_and_sort _;
    names_abnormal = IsNames-nil;
    names_last = IsNames-nil;
    cover = λ x. ground (arith, contains-new_backup x);
    running_backup = λ x. refl;
    running_abnormal = λ x. refl;
    backup_abnormal = λ x. ground arith;
  }

  new_lists_synced : IsNormalSynced (new_lists total disk)
  unfolding new_lists sync_backup_nodes sync_normal_nodes contains
  new_lists_synced x = ground (arith, contains-new_normal x)

names_equal_empty :
    (xs ys : List String) → is_empty xs ≡ false → is_empty ys ≡ true → names_equal xs ys ≡ false
unfolding names_equal
names_equal_empty [] ys e f = cc
names_equal_empty (x ∷ xs) [] e f = refl
names_equal_empty (x ∷ xs) (y ∷ ys) e f = cc

-- On a directory without nodes, and a host file with some, the pool starts with every node of the
-- host file as a backup node and none running or abnormal: the rules hold, and the normal nodes are
-- in step.
pub init_node_pool_first :
    (hostfile_lines : List String) (disk : Disk)
    → is_empty (deduplicate_and_sort (read_hostfile disk.total_lines)) ≡ true
    → is_empty (deduplicate_and_sort (read_hostfile hostfile_lines)) ≡ false
    → (q : NodePool) × (init_node_pool hostfile_lines disk ≡ some q)
      × IsPartition q
      × IsNormalSynced q
      × (q.running_nodes ≡ [])
      × (q.total_nodes ≡ deduplicate_and_sort (read_hostfile hostfile_lines))
      × (q.abnormal_nodes ≡ [])
      × ((x : String)
          → contains x q.backup_nodes
            ≡ contains x (deduplicate_and_sort (read_hostfile hostfile_lines)))
unfolding init_node_pool persist_all_nodes fix_constraints
init_node_pool_first hostfile_lines disk empty some_host =
    let total = deduplicate_and_sort (read_hostfile hostfile_lines) in
    let t = IsNames-deduplicate_and_sort (read_hostfile hostfile_lines) in
    let fresh : check_and_sync_total_nodes total disk ≡ new_lists total disk =
      unfold check_and_sync_total_nodes in rw (names_equal_empty total _ some_host empty, empty) in
    let n = new_lists-IsPartition total t disk in
    (
      persist_all_nodes (fix_constraints (new_lists total disk)),
      rw (fresh, validate_lem _ n),
      persist_all_nodes-IsPartition _ (fix_constraints-IsPartition _ n),
      finished_synced (new_lists total disk) n (new_lists_synced total t disk),
      unfold new_lists sync_backup_nodes sync_normal_nodes in refl,
      unfold new_lists sync_backup_nodes sync_normal_nodes in refl,
      unfold new_lists sync_backup_nodes sync_normal_nodes deduplicate_and_sort valid_nodes dedup
            sort inter in
          refl,
      λ x.
          contains-fix_backup (new_lists total disk) n x
          ∙ unfold new_lists sync_backup_nodes sync_normal_nodes in
            contains-new_backup total t disk x,
    )
