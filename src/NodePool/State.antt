-- ===== src/NodePool/State.antt =====
-- node_pool.py: the five lists, their files, and the upkeep that every method ends with.
use cluster_manager_das.Prelude.{
  ℕ, String, Bool, true, false, List, ◌++◌, Option, map, ltb, is_empty, if◌then◌else◌,
}
use cluster_manager_das.Prelude.Names.{sort, dedup, diff, inter}
use cluster_manager_das.Prelude.Names.Strip.{valid_nodes}
use cluster_manager_das.Prelude.Exec.{Exec, runtime_error, value_error, assert, raise, pure, ◌>>◌}

-- `NodePoolErrorCode`
pub data NodePoolErrorCode : Type 0 where
  success abnormal_in_running node_not_in_total node_already_abnormal : NodePoolErrorCode
  node_not_in_backup_or_normal no_valid_node invalid_target_pool : NodePoolErrorCode

-- The files of the directory `.node_pool` that hold a list of names.
pub data NodeFile : Type 0 where
  total_file running_file backup_file abnormal_file normal_file : NodeFile

-- The directory: the lines of each file, and which of them can be written at present.
pub record Disk : Type 0 where
  pub total_lines : List String
  pub running_lines : List String
  pub backup_lines : List String
  pub abnormal_lines : List String
  pub normal_lines : List String
  pub slots_lines : List (String × ℕ)
  -- `none`: succ_additional_nodes.txt does not exist
  pub succ_additional_lines : Option (List String)
  pub writable : NodeFile → Bool
  pub slots_writable : Bool

-- The fields of `NodePool`.
pub record NodePool : Type 0 where
  pub total_nodes : List String
  pub running_nodes : List String
  pub backup_nodes : List String
  pub abnormal_nodes : List String
  pub normal_nodes : List String
  pub last_running_nodes : List String
  pub len_running_abnormal_nodes : ℕ
  pub disk : Disk

-- `_deduplicate_and_sort`
unfoldable pub deduplicate_and_sort : List String → List String
deduplicate_and_sort nodes = sort (dedup (valid_nodes nodes))

-- `_calculate_normal_nodes`
unfoldable pub calculate_normal_nodes : NodePool → List String
calculate_normal_nodes p = deduplicate_and_sort (diff p.total_nodes p.abnormal_nodes)

-- `_calculate_backup_nodes`
unfoldable pub calculate_backup_nodes : NodePool → List String
calculate_backup_nodes p = deduplicate_and_sort (diff p.normal_nodes p.running_nodes)

-- `_sync_normal_nodes`
unfoldable pub sync_normal_nodes : NodePool → NodePool
unfolding calculate_normal_nodes
sync_normal_nodes p = record p { normal_nodes = calculate_normal_nodes p }

-- `_sync_backup_nodes`
unfoldable pub sync_backup_nodes : NodePool → NodePool
unfolding calculate_backup_nodes
sync_backup_nodes p = record p { backup_nodes = calculate_backup_nodes p }

-- The part of `_validate_and_fix_constraints` that writes: subsets are cut to the total.
unfoldable pub fix_constraints : NodePool → NodePool
fix_constraints p = record p {
  backup_nodes = deduplicate_and_sort (inter p.backup_nodes p.total_nodes);
  abnormal_nodes = deduplicate_and_sort (inter p.abnormal_nodes p.total_nodes);
}

-- `_validate_and_fix_constraints`: the sets in the first three assertions were read before the fix.
unfoldable pub validate_and_fix_constraints : Exec NodePool Unit
unfolding fix_constraints
validate_and_fix_constraints p =
    let q = fix_constraints p in
    (assert (is_empty (inter p.running_nodes p.abnormal_nodes))
        >> assert (is_empty (inter p.backup_nodes p.abnormal_nodes))
        >> assert (is_empty (inter p.running_nodes p.backup_nodes))
        >> assert
            (is_empty (diff p.total_nodes (q.running_nodes ++ q.backup_nodes ++ q.abnormal_nodes))))
      q

-- One `open(…, "w")` of `_persist_all_nodes`: where the file cannot be opened, this is logged and the
-- file stays as it was. A write that fails on a file that was opened is left out.
abbrev pub write_lines : Bool → List String → List String → List String
write_lines true new old = new
write_lines false new old = old

-- `_persist_all_nodes`
unfoldable pub persist_all_nodes : NodePool → NodePool
persist_all_nodes p = record p {
  disk = record p.disk {
    total_lines = write_lines (p.disk.writable total_file) p.total_nodes p.disk.total_lines;
    running_lines = write_lines (p.disk.writable running_file) p.running_nodes p.disk.running_lines;
    backup_lines = write_lines (p.disk.writable backup_file) p.backup_nodes p.disk.backup_lines;
    abnormal_lines =
        write_lines (p.disk.writable abnormal_file) p.abnormal_nodes p.disk.abnormal_lines;
    normal_lines = write_lines (p.disk.writable normal_file) p.normal_nodes p.disk.normal_lines;
  };
}

-- `_write_slots_running_nodes_file`: one line for each running node, in the order of the list.
unfoldable pub write_slots_running_nodes_file : ℕ → Exec NodePool Unit
write_slots_running_nodes_file slots p =
    if ltb slots 1
    then (raise value_error) p
    else if p.disk.slots_writable
    then (pure tt) (record p {
      disk = record p.disk { slots_lines = map (λ node. (node, slots)) p.running_nodes };
    })
    else (raise runtime_error) p
