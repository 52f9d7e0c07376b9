-- ===== src/NodePool/Partition/Marked.antt =====
-- The methods that mark nodes keep the rules, and what they do to the lists.
use cluster_manager_das.Prelude.{
  String, true, false, List, [], ◌++◌, ◌≡◌, refl, ◌∙◌, ◌&&◌, ◌||◌, not, arith, is_empty, none, some,
  if◌then◌else◌, Bool-cases, inl, inr, ap,
}
use cluster_manager_das.Prelude.Names.{contains, inter, sort}
use cluster_manager_das.Prelude.Names.Laws.{contains-inter, contains-diff, contains-append}
use cluster_manager_das.Prelude.Names.Strip.{AllClean-diff, AllClean-append}
use cluster_manager_das.Prelude.Exec.{ok}
use cluster_manager_das.NodePool.State.{
  NodePool, fix_constraints, persist_all_nodes, sync_normal_nodes, sync_backup_nodes,
}
use cluster_manager_das.NodePool.Marking.{Marked, clear_running, extend_abnormal, mark_abnormal}
use cluster_manager_das.NodePool.Partition.Names.{
  IsNames, IsNames-deduplicate_and_sort, contains-deduplicate_and_sort, contains-of_is_empty,
}
use cluster_manager_das.NodePool.Partition.Rules.{
  IsPartition, IsNormalSynced, fix_constraints-IsPartition, validate_lem, contains-fix_abnormal,
  persist_all_nodes-IsPartition,
}

pub IsNames-nil : IsNames []
IsNames-nil = record { clean = tt; nodup = tt }

-- The lists after marking, before they are validated.
cleared : List String → NodePool → NodePool
cleared valid p = if is_empty (inter valid p.running_nodes) then p else clear_running p

marked : List String → NodePool → NodePool
unfolding cleared
marked valid p = sync_backup_nodes (sync_normal_nodes (extend_abnormal valid (cleared valid p)))

module _ (p : NodePool) (h : IsPartition p) (valid : List String) (v : IsNames valid) where
  cleared-IsNames :
      IsNames (cleared valid p).running_nodes × IsNames (cleared valid p).last_running_nodes
  unfolding cleared clear_running
  cleared-IsNames = elim (Bool-cases (is_empty (inter valid p.running_nodes))) [
    | inl e ↦ rw e (h.names_running, h.names_last)
    | inr e ↦ rw e (IsNames-nil, h.names_running)
  ]

  cleared_running :
      (x : String)
      → contains x (cleared valid p).running_nodes
        ≡ (contains x p.running_nodes && is_empty (inter valid p.running_nodes))
  unfolding cleared clear_running contains
  cleared_running x = ground arith

  cleared_disjoint :
      (x : String) → (contains x (cleared valid p).running_nodes && contains x valid) ≡ false
  cleared_disjoint x = ground (
    arith,
    cleared_running x,
    contains-inter x valid p.running_nodes,
    contains-of_is_empty x (inter valid p.running_nodes),
  )

  cleared_rest :
      ((cleared valid p).abnormal_nodes ≡ p.abnormal_nodes)
      × ((cleared valid p).total_nodes ≡ p.total_nodes)
  unfolding cleared clear_running
  cleared_rest = ground arith

  -- After marking, a node is abnormal if it was or is marked, normal otherwise, and runs as long as
  -- no running node is marked.
  marked_abnormal :
      (x : String)
      → contains x (marked valid p).abnormal_nodes
        ≡ (contains x p.abnormal_nodes || contains x valid)
  unfolding marked extend_abnormal sync_normal_nodes sync_backup_nodes
  marked_abnormal x = rw (cleared_rest.0) (
      contains-deduplicate_and_sort x (p.abnormal_nodes ++ valid)
        (AllClean-append p.abnormal_nodes valid h.names_abnormal.clean v.clean)
      ∙ contains-append x p.abnormal_nodes valid)

  marked_total : (marked valid p).total_nodes ≡ p.total_nodes
  unfolding marked extend_abnormal sync_normal_nodes sync_backup_nodes
  marked_total = cleared_rest.1

  marked_running : (marked valid p).running_nodes ≡ (cleared valid p).running_nodes
  unfolding marked extend_abnormal sync_normal_nodes sync_backup_nodes
  marked_running = refl

  marked_normal :
      (x : String)
      → contains x (marked valid p).normal_nodes
        ≡ (contains x p.total_nodes && not (contains x (marked valid p).abnormal_nodes))
  unfolding marked extend_abnormal sync_normal_nodes sync_backup_nodes
  marked_normal x = rw (cleared_rest.1) (
      contains-deduplicate_and_sort x _ (AllClean-diff p.total_nodes _ h.names_total.clean)
      ∙ contains-diff x p.total_nodes _)

  marked_backup :
      (x : String)
      → contains x (marked valid p).backup_nodes ≡ (
          contains x (marked valid p).normal_nodes
          && not (contains x (marked valid p).running_nodes))
  unfolding marked extend_abnormal sync_normal_nodes sync_backup_nodes
  marked_backup x =
      contains-deduplicate_and_sort x _ (AllClean-diff _ _ (IsNames-deduplicate_and_sort _).clean)
      ∙ contains-diff x _ _

  marked-IsPartition :
      ((x : String) → contains x valid ≡ true → contains x p.total_nodes ≡ true)
      → IsPartition (marked valid p)
  marked-IsPartition sub = record {
    names_total = rw marked_total h.names_total;
    names_running = rw marked_running cleared-IsNames.0;
    names_backup = unfold marked sync_backup_nodes in IsNames-deduplicate_and_sort _;
    names_abnormal =
        unfold marked extend_abnormal sync_normal_nodes sync_backup_nodes in
        IsNames-deduplicate_and_sort _;
    names_last =
        unfold marked extend_abnormal sync_normal_nodes sync_backup_nodes in cleared-IsNames.1;
    cover = λ x. rw marked_total (
        rw marked_running (
          ground (
            arith,
            sub x,
            h.cover x,
            marked_backup x,
            marked_normal x,
            marked_abnormal x,
            cleared_running x,
            ap (contains x) marked_running,
          )));
    running_backup = λ x. ground (arith, marked_backup x);
    running_abnormal = λ x. ground (
      arith,
      marked_abnormal x,
      cleared_disjoint x,
      cleared_running x,
      h.running_abnormal x,
      ap (contains x) marked_running,
    );
    backup_abnormal = λ x. ground (arith, marked_backup x, marked_normal x);
  }

-- What marking does to the lists: `q` is the pool after the nodes `valid` of the pool `p` are marked.
pub record IsMarked (valid : List String) (p q : NodePool) : Type 0 where
  pub total : q.total_nodes ≡ p.total_nodes
  pub abnormal :
      (x : String) → contains x q.abnormal_nodes ≡ (contains x p.abnormal_nodes || contains x valid)
  pub running :
      (x : String)
      → contains x q.running_nodes
        ≡ (contains x p.running_nodes && is_empty (inter valid p.running_nodes))
  pub remembered :
      q.last_running_nodes
      ≡ (if is_empty (inter valid p.running_nodes) then p.last_running_nodes else p.running_nodes)
  pub synced : IsNormalSynced q

-- The answer of the marking methods: the nodes that ran are reported where there are any.
abbrev pub marked_answer : List String → NodePool → Marked
marked_answer valid p =
    if is_empty (inter valid p.running_nodes)
    then (true, false, some valid, none)
    else (true, true, some valid, some (sort (inter valid p.running_nodes)))

module _ (p : NodePool) (h : IsPartition p) (valid : List String) (v : IsNames valid)
    (sub : (x : String) → contains x valid ≡ true → contains x p.total_nodes ≡ true) where
  pub after_marking : NodePool
  after_marking = persist_all_nodes (fix_constraints (marked valid p))

  pub mark_abnormal_lem : mark_abnormal valid p ≡ (ok (marked_answer valid p), after_marking)
  unfolding mark_abnormal after_marking marked cleared
  mark_abnormal_lem = rw (validate_lem (marked valid p) (marked-IsPartition p h valid v sub))

  pub after_marking-IsPartition : IsPartition after_marking
  unfolding after_marking
  after_marking-IsPartition =
      persist_all_nodes-IsPartition _
        (fix_constraints-IsPartition _ (marked-IsPartition p h valid v sub))

  pub after_marking-IsMarked : IsMarked valid p after_marking
  unfolding after_marking persist_all_nodes fix_constraints
  after_marking-IsMarked = record {
    total = marked_total p h valid v;
    abnormal = λ x.
        contains-fix_abnormal (marked valid p) (marked-IsPartition p h valid v sub) x
        ∙ marked_abnormal p h valid v x;
    running = λ x. rw (marked_running p h valid v) (cleared_running p h valid v x);
    remembered =
        unfold marked extend_abnormal sync_normal_nodes sync_backup_nodes cleared clear_running in
        ground arith;
    synced = λ x. ground (
      arith,
      contains-fix_abnormal (marked valid p) (marked-IsPartition p h valid v sub) x,
      marked_normal p h valid v x,
      ap (contains x) (marked_total p h valid v),
    );
  }
