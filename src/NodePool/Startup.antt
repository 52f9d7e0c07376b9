-- ===== src/NodePool/Startup.antt =====
-- node_pool.py: `NodePool.__init__`, from the host file and the directory `.node_pool`.
pub mod Restored
use cluster_manager_das.Prelude.{
  ℕ, String, ◌==◌, Bool, true, false, ◌&&◌, List, [], ◌∷◌, ◌++◌, Option, none, some, is_empty,
  if◌then◌else◌,
}
use cluster_manager_das.Prelude.Exec.{Result, ok, err, modify, ◌>>◌}
use cluster_manager_das.Hostfile.{read_hostfile}
use cluster_manager_das.NodePool.State.{
  Disk, NodePool, deduplicate_and_sort, sync_normal_nodes, sync_backup_nodes,
  validate_and_fix_constraints, persist_all_nodes,
}

-- `xs == ys` on lists of names
unfoldable pub names_equal : List String → List String → Bool
names_equal [] [] = true
names_equal (x ∷ xs) (y ∷ ys) = let rest = names_equal xs ys in x == y && rest
names_equal _ _ = false

-- The lists read back from the files.
unfoldable pub restore_lists : List String → Disk → NodePool
restore_lists total disk = record {
  total_nodes = total;
  running_nodes = read_hostfile disk.running_lines;
  backup_nodes = read_hostfile disk.backup_lines;
  abnormal_nodes = read_hostfile disk.abnormal_lines;
  normal_nodes = read_hostfile disk.normal_lines;
  last_running_nodes = [];
  len_running_abnormal_nodes = 0;
  disk = disk;
}

-- A pool in which every node is a backup node.
unfoldable pub new_lists : List String → Disk → NodePool
new_lists total disk = sync_backup_nodes (
    sync_normal_nodes (record {
      total_nodes = total;
      running_nodes = [];
      backup_nodes = [];
      abnormal_nodes = [];
      normal_nodes = [];
      last_running_nodes = [];
      len_running_abnormal_nodes = 0;
      disk = disk;
    }))

-- succ_additional_nodes.txt, where it exists
abbrev additional_nodes : Option (List String) → List String
additional_nodes none = []
additional_nodes (some lines) = read_hostfile lines

-- `_check_and_sync_total_nodes`, with the nodes of the host file as `mem_nodes`
unfoldable pub check_and_sync_total_nodes : List String → Disk → NodePool
unfolding restore_lists new_lists
check_and_sync_total_nodes mem_nodes disk =
    let file_nodes = deduplicate_and_sort (read_hostfile disk.total_lines) in
    if names_equal mem_nodes file_nodes
    then restore_lists mem_nodes disk
    else if is_empty file_nodes
    then new_lists mem_nodes disk
    else if names_equal
        (deduplicate_and_sort (mem_nodes ++ additional_nodes disk.succ_additional_lines)) file_nodes
    then restore_lists file_nodes disk
    else new_lists mem_nodes disk

abbrev started : Result (Unit {0}) × NodePool → Option NodePool
started (ok u, p) = some p
started (err e, p) = none

-- `__init__`; `none` stands for the exit of the process.
unfoldable pub init_node_pool : List String → Disk → Option NodePool
unfolding check_and_sync_total_nodes
init_node_pool hostfile_lines disk = started (
    (validate_and_fix_constraints >> modify persist_all_nodes)
      (check_and_sync_total_nodes (deduplicate_and_sort (read_hostfile hostfile_lines)) disk))

-- The directory after `.node_pool` was removed and its files were created again, empty.
unfoldable pub clean_disk : Disk → Disk
clean_disk disk = record disk {
  total_lines = [];
  running_lines = [];
  backup_lines = [];
  abnormal_lines = [];
  normal_lines = [];
  slots_lines = [];
  succ_additional_lines = none;
}

-- `clean_init`
unfoldable pub clean_init : List String → Disk → Option NodePool
unfolding clean_disk init_node_pool
clean_init hostfile_lines disk = init_node_pool hostfile_lines (clean_disk disk)
