-- ===== src/NodePool/Marking.antt =====
-- node_pool.py: the methods that add nodes and that mark them abnormal or normal.
use cluster_manager_das.Prelude.{
  ℕ, ◌+◌, String, Bool, true, false, ◌==◌, ◌||◌, not, List, [], ◌∷◌, ◌++◌, Option, none, some,
  length, get_elem?, is_empty, if◌then◌else◌, ◌⊎◌, inl, inr,
}
use cluster_manager_das.Prelude.Names.{diff, inter, sort}
use cluster_manager_das.Prelude.Exec.{
  Exec, ok, assertion_error, value_error, modify, pure, raise, ◌>>=◌, ◌>>◌,
}
use cluster_manager_das.NodePool.State.{
  NodePool, NodePoolErrorCode, success, node_not_in_total, node_already_abnormal, no_valid_node,
  invalid_target_pool, deduplicate_and_sort, sync_normal_nodes, sync_backup_nodes,
  validate_and_fix_constraints, persist_all_nodes,
}

-- `reset_node_pool` up to its check that the abnormal nodes belong to the total.
unfoldable pub reset_lists : List String → List String → NodePool → NodePool
reset_lists total abnormal p = record p {
  total_nodes = deduplicate_and_sort total;
  running_nodes = [];
  last_running_nodes = [];
  abnormal_nodes = deduplicate_and_sort abnormal;
}

-- The backup list that `reset_node_pool` computes from the new total and abnormal lists.
unfoldable pub reset_backup : NodePool → NodePool
reset_backup p = record p {
  backup_nodes = deduplicate_and_sort (diff p.total_nodes p.abnormal_nodes);
}

-- `reset_node_pool`; an absent list of abnormal nodes is the empty one.
unfoldable pub reset_node_pool : List String → List String → Exec NodePool Unit
unfolding reset_lists reset_backup
reset_node_pool total abnormal p =
    let q = reset_lists total abnormal p in
    if is_empty (diff q.abnormal_nodes q.total_nodes)
    then (do
      modify sync_normal_nodes
      modify reset_backup
      validate_and_fix_constraints
      modify persist_all_nodes)
        q
    else (raise value_error) q

-- The new nodes join the total and the backup list.
unfoldable pub extend_total : List String → NodePool → NodePool
extend_total new p = record p {
  total_nodes = deduplicate_and_sort (p.total_nodes ++ new);
  backup_nodes = deduplicate_and_sort (p.backup_nodes ++ new);
}

-- `add_total_nodes`
unfoldable pub add_total_nodes : List String → Exec NodePool (Option (List String))
unfolding extend_total
add_total_nodes nodes p =
    let new = diff (deduplicate_and_sort nodes) p.total_nodes in
    if is_empty new
    then (ok none, p)
    else (do
      modify (extend_total new)
      validate_and_fix_constraints
      modify persist_all_nodes
      pure (some new))
        p

-- The nodes leave the abnormal list and join the backup list.
unfoldable pub restore_to_backup : List String → NodePool → NodePool
restore_to_backup nodes p = record p {
  abnormal_nodes = deduplicate_and_sort (diff p.abnormal_nodes nodes);
  backup_nodes = deduplicate_and_sort (p.backup_nodes ++ nodes);
}

-- The nodes leave the abnormal list and join the running list.
unfoldable pub restore_to_running : List String → NodePool → NodePool
restore_to_running nodes p = record p {
  abnormal_nodes = deduplicate_and_sort (diff p.abnormal_nodes nodes);
  running_nodes = deduplicate_and_sort (p.running_nodes ++ nodes);
}

-- `add_normal_nodes`
unfoldable pub add_normal_nodes :
    List String → Exec NodePool (NodePoolErrorCode × Bool × List String)
unfolding restore_to_backup
add_normal_nodes nodes p =
    let pure_nodes = deduplicate_and_sort nodes in
    let restored = inter pure_nodes p.abnormal_nodes in
    if not (is_empty (diff pure_nodes p.total_nodes))
    then (ok (node_not_in_total, false, []), p)
    else if is_empty restored
    then (ok (success, false, []), p)
    else (do
      modify (restore_to_backup restored)
      modify sync_normal_nodes
      validate_and_fix_constraints
      modify persist_all_nodes
      pure (success, true, restored))
        p

-- `_validate_abnormal_candidates`
unfoldable pub validate_abnormal_candidates :
    NodePool → List String → List String × NodePoolErrorCode
validate_abnormal_candidates p nodes =
    let pure_nodes = deduplicate_and_sort nodes in
    if not (is_empty (diff pure_nodes p.total_nodes))
    then ([], node_not_in_total)
    else if not (is_empty (inter pure_nodes p.abnormal_nodes))
    then ([], node_already_abnormal)
    else (pure_nodes, success)

-- A job that runs on a node now abnormal is taken off all its nodes, which are remembered.
unfoldable pub clear_running : NodePool → NodePool
clear_running p = record p { last_running_nodes = p.running_nodes; running_nodes = [] }

unfoldable pub extend_abnormal : List String → NodePool → NodePool
extend_abnormal nodes p = record p {
  abnormal_nodes = deduplicate_and_sort (p.abnormal_nodes ++ nodes);
}

-- What the marking methods return: whether nodes were marked, whether the running list was cleared,
-- the marked nodes, and those of them that ran.
abbrev pub Marked : Type 0
Marked = Bool × Bool × Option (List String) × Option (List String)

-- The rest of `add_abnormal_nodes`, with the candidates that passed.
unfoldable pub mark_abnormal : List String → Exec NodePool Marked
unfolding clear_running extend_abnormal
mark_abnormal valid p =
    let conflict = inter valid p.running_nodes in
    (do
      modify (λ q. if is_empty conflict then q else clear_running q)
      modify (extend_abnormal valid)
      modify sync_normal_nodes
      modify sync_backup_nodes
      validate_and_fix_constraints
      modify persist_all_nodes
      pure (
          if is_empty conflict
          then (true, false, some valid, none)
          else (true, true, some valid, some (sort conflict))))
      p

abbrev is_success : NodePoolErrorCode → Bool
is_success success = true
is_success _ = false

-- `add_abnormal_nodes`
unfoldable pub add_abnormal_nodes : List String → Exec NodePool Marked
unfolding validate_abnormal_candidates mark_abnormal
add_abnormal_nodes nodes p =
    let (valid, code) = validate_abnormal_candidates p nodes in
    if not (is_success code) || is_empty valid
    then (ok (false, false, none, none), p)
    else mark_abnormal valid p

-- `add_abnormal_runing_nodeno`
unfoldable pub add_abnormal_runing_nodeno : ℕ → Exec NodePool Marked
add_abnormal_runing_nodeno nodeno p = elim (get_elem? p.running_nodes nodeno) [
  | none ↦ raise assertion_error p
  | some err_node ↦
      add_abnormal_nodes (err_node ∷ [])
        (record p { len_running_abnormal_nodes = p.len_running_abnormal_nodes + 1 })
]

-- `add_abnormal_runing_error_nodes`: two values come back where no node ran, and four otherwise.
unfoldable pub add_abnormal_runing_error_nodes :
    List String → Exec NodePool ((Bool × Bool) ⊎ Marked)
add_abnormal_runing_error_nodes err_nodes p =
    let valid = inter err_nodes p.running_nodes in
    if is_empty valid
    then (ok (inl (false, false)), p)
    else (do r ← add_abnormal_nodes valid; pure (inr r))
        (record p { len_running_abnormal_nodes = length valid })

-- `remove_abnormal_nodes`: neither the normal list nor the files are brought up to date.
unfoldable pub remove_abnormal_nodes :
    List String → String → Exec NodePool (NodePoolErrorCode × Bool)
unfolding restore_to_running restore_to_backup
remove_abnormal_nodes nodes target_pool p =
    let pure_nodes = deduplicate_and_sort nodes in
    let valid = inter pure_nodes p.abnormal_nodes in
    if not (target_pool == "backup" || target_pool == "running")
    then (ok (invalid_target_pool, false), p)
    else if not (is_empty (diff pure_nodes p.total_nodes))
    then (ok (node_not_in_total, false), p)
    else if is_empty valid
    then (ok (no_valid_node, false), p)
    else (do
      modify
          (if target_pool == "running" then restore_to_running valid else restore_to_backup valid)
      validate_and_fix_constraints
      pure (success, true))
        p

-- `release_runing_nodes`
unfoldable pub release_runing_nodes : NodePool → NodePool
release_runing_nodes p =
    let q = record p { backup_nodes = deduplicate_and_sort (p.running_nodes ++ p.backup_nodes) } in
    if is_empty p.running_nodes
    then q
    else persist_all_nodes (record q { last_running_nodes = p.running_nodes; running_nodes = [] })
