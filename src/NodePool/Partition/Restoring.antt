-- ===== src/NodePool/Partition/Restoring.antt =====
-- The methods that add nodes to the pool, take them off the abnormal list, reset or release them.
use cluster_manager_das.Prelude.{
  String, true, List, ◌++◌, ◌≡◌, refl, ◌∙◌, ◌||◌, not, arith, is_empty, Bool-cases, inl, inr, ◌==◌,
}
use cluster_manager_das.Prelude.Names.{contains, inter, diff}
use cluster_manager_das.Prelude.Names.Laws.{contains-inter, contains-diff, contains-append}
use cluster_manager_das.Prelude.Names.Strip.{AllClean-diff, AllClean-append, AllClean-inter}
use cluster_manager_das.NodePool.State.{
  NodePool, deduplicate_and_sort, fix_constraints, persist_all_nodes, sync_normal_nodes,
}
use cluster_manager_das.NodePool.Marking.{
  extend_total, add_total_nodes, restore_to_backup, restore_to_running, add_normal_nodes,
  remove_abnormal_nodes, release_runing_nodes,
}
use cluster_manager_das.NodePool.Partition.Names.{
  IsNames-deduplicate_and_sort, contains-deduplicate_and_sort, contains-of_is_empty,
}
use cluster_manager_das.NodePool.Partition.Rules.{
  IsPartition, Kept, fix_constraints-IsPartition, validate_lem, persist_all_nodes-IsPartition,
}
use cluster_manager_das.NodePool.Partition.Marked.{IsNames-nil}
use cluster_manager_das.NodePool.Partition.Moved.{
  extend_total-IsPartition, restore_to_backup-IsPartition, restore_to_running-IsPartition,
}

-- A pool that was synchronised may be validated and written with its rules in force.
abbrev finished : NodePool → NodePool
finished q = persist_all_nodes (fix_constraints q)

finished-IsPartition : (q : NodePool) → IsPartition q → IsPartition (finished q)
finished-IsPartition q g = persist_all_nodes-IsPartition _ (fix_constraints-IsPartition q g)

sync_normal-IsPartition : (p : NodePool) → IsPartition p → IsPartition (sync_normal_nodes p)
unfolding sync_normal_nodes
sync_normal-IsPartition p h = record {
  names_total = h.names_total;
  names_running = h.names_running;
  names_backup = h.names_backup;
  names_abnormal = h.names_abnormal;
  names_last = h.names_last;
  cover = h.cover;
  running_backup = h.running_backup;
  running_abnormal = h.running_abnormal;
  backup_abnormal = h.backup_abnormal;
}

inter-new :
    (nodes : List String) (ys : List String) (x : String)
    → contains x (inter (deduplicate_and_sort nodes) ys) ≡ true
    → contains x ys ≡ true
inter-new nodes ys x m = ground (arith, contains-inter x (deduplicate_and_sort nodes) ys)

module _ (p : NodePool) (h : IsPartition p) (nodes : List String) where
  -- Adding nodes to the pool raises nothing and keeps the rules, whatever the nodes.
  pub add_total_nodes-Kept : Kept (add_total_nodes nodes p)
  unfolding add_total_nodes
  add_total_nodes-Kept =
      elim (Bool-cases (is_empty (diff (deduplicate_and_sort nodes) p.total_nodes))) [
        | inl e ↦ rw e (record { value = _; returned = refl; partition = h })
        | inr e ↦
            rw (e, validate_lem _ extended)
              (record { value = _; returned = refl; partition = finished-IsPartition _ extended })
      ]
    where
      extended : IsPartition (extend_total (diff (deduplicate_and_sort nodes) p.total_nodes) p)
      extended =
          extend_total-IsPartition p h _
            (AllClean-diff _ _ (IsNames-deduplicate_and_sort nodes).clean)
            λ x. ground (arith, contains-diff x (deduplicate_and_sort nodes) p.total_nodes)

  -- Taking nodes off the abnormal list raises nothing and keeps the rules, whatever the nodes.
  pub add_normal_nodes-Kept : Kept (add_normal_nodes nodes p)
  unfolding add_normal_nodes
  add_normal_nodes-Kept =
      elim (Bool-cases (is_empty (diff (deduplicate_and_sort nodes) p.total_nodes))) [
        | inr e ↦ rw e (record { value = _; returned = refl; partition = h })
        | inl e ↦
            rw e
              (elim (Bool-cases (is_empty (inter (deduplicate_and_sort nodes) p.abnormal_nodes))) [
                | inl f ↦ rw f (record { value = _; returned = refl; partition = h })
                | inr f ↦
                    rw (f, validate_lem _ restored)
                      (record {
                        value = _;
                        returned = refl;
                        partition = finished-IsPartition _ restored;
                      })
              ])
      ]
    where
      restored : IsPartition (
          sync_normal_nodes
            (restore_to_backup (inter (deduplicate_and_sort nodes) p.abnormal_nodes) p))
      restored = sync_normal-IsPartition _ (
          restore_to_backup-IsPartition p h _
            (AllClean-inter _ _ (IsNames-deduplicate_and_sort nodes).clean)
            (inter-new nodes p.abnormal_nodes))

  -- On a pool that follows its rules, `remove_abnormal_nodes` raises nothing and keeps them,
  -- whatever the nodes, for every target pool, also an invalid one.
  pub remove_abnormal_nodes-Kept : (target : String) → Kept (remove_abnormal_nodes nodes target p)
  unfolding remove_abnormal_nodes
  remove_abnormal_nodes-Kept target =
      elim (Bool-cases (not (target == "backup" || target == "running"))) [
        | inl b ↦ rw b (record { value = _; returned = refl; partition = h })
        | inr b ↦
            rw b (elim (Bool-cases (is_empty (diff (deduplicate_and_sort nodes) p.total_nodes))) [
              | inr e ↦ rw e (record { value = _; returned = refl; partition = h })
              | inl e ↦
                  rw e
                    (elim (Bool-cases
                      (is_empty (inter (deduplicate_and_sort nodes) p.abnormal_nodes))) [
                        | inl f ↦ rw f (record { value = _; returned = refl; partition = h })
                        | inr f ↦ rw f (elim (Bool-cases (target == "running")) [
                          | inl r ↦
                              rw (r, validate_lem _ running)
                                (record {
                                  value = _;
                                  returned = refl;
                                  partition = fix_constraints-IsPartition _ running;
                                })
                          | inr r ↦
                              rw (r, validate_lem _ backup)
                                (record {
                                  value = _;
                                  returned = refl;
                                  partition = fix_constraints-IsPartition _ backup;
                                })
                        ])
                      ])
            ])
      ]
    where
      valid : List String
      valid = inter (deduplicate_and_sort nodes) p.abnormal_nodes

      running : IsPartition (restore_to_running valid p)
      running =
          restore_to_running-IsPartition p h _
            (AllClean-inter _ _ (IsNames-deduplicate_and_sort nodes).clean)
            (inter-new nodes p.abnormal_nodes)

      backup : IsPartition (restore_to_backup valid p)
      backup =
          restore_to_backup-IsPartition p h _
            (AllClean-inter _ _ (IsNames-deduplicate_and_sort nodes).clean)
            (inter-new nodes p.abnormal_nodes)

module _ (p : NodePool) (h : IsPartition p) where
  contains-released :
      (x : String)
      → contains x (deduplicate_and_sort (p.running_nodes ++ p.backup_nodes))
        ≡ (contains x p.running_nodes || contains x p.backup_nodes)
  contains-released x =
      contains-deduplicate_and_sort x (p.running_nodes ++ p.backup_nodes)
        (AllClean-append p.running_nodes p.backup_nodes h.names_running.clean h.names_backup.clean)
      ∙ contains-append x p.running_nodes p.backup_nodes

  pub release_runing_nodes-IsPartition : IsPartition (release_runing_nodes p)
  unfolding release_runing_nodes persist_all_nodes
  release_runing_nodes-IsPartition = elim (Bool-cases (is_empty p.running_nodes)) [
    | inl e ↦ rw e (record {
      names_total = h.names_total;
      names_running = h.names_running;
      names_backup = IsNames-deduplicate_and_sort _;
      names_abnormal = h.names_abnormal;
      names_last = h.names_last;
      cover = λ x. ground (arith, h.cover x, contains-released x);
      running_backup = λ x. ground (arith, contains-of_is_empty x p.running_nodes e);
      running_abnormal = h.running_abnormal;
      backup_abnormal =
          λ x. ground (arith, h.backup_abnormal x, h.running_abnormal x, contains-released x);
    })
    | inr e ↦ rw e (record {
      names_total = h.names_total;
      names_running = IsNames-nil;
      names_backup = IsNames-deduplicate_and_sort _;
      names_abnormal = h.names_abnormal;
      names_last = h.names_running;
      cover = λ x. unfold contains in ground (arith, h.cover x, contains-released x);
      running_backup = λ x. unfold contains in refl;
      running_abnormal = λ x. unfold contains in refl;
      backup_abnormal =
          λ x. ground (arith, h.backup_abnormal x, h.running_abnormal x, contains-released x);
    })
  ]
