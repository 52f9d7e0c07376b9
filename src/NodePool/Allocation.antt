-- ===== src/NodePool/Allocation.antt =====
-- node_pool.py: the methods that hand nodes to a job, with the blacklist asked first. `Select` has
-- the choice of nodes, as loops over local lists and the backup list.
pub mod Select
mod Moves
mod Loop
mod Plan
mod Fresh
mod Chosen
mod Targets
pub mod Listed
pub mod Promise
use cluster_manager_das.Prelude.{
  ℕ, ◌+◌, String, List, ◌++◌, Option, none, some, ltb, length, head?, is_empty, if◌then◌else◌,
}
use cluster_manager_das.Prelude.Names.{inter}
use cluster_manager_das.Prelude.Exec.{Exec, ok, modify, gets, ◌>>=◌, ◌>>◌}
use cluster_manager_das.NodePool.State.{
  NodePool, deduplicate_and_sort, validate_and_fix_constraints, persist_all_nodes,
  write_slots_running_nodes_file,
}
use cluster_manager_das.NodePool.Allocation.Select.{select_nodes, select_targets}

-- `AllocationResult` of node_blacklist_manager.py, as far as the pool reads it.
pub record AllocationResult : Type 0 where
  pub healthy_nodes : List String
  pub backup_nodes : List String
  pub rejected_nodes : List String

-- What the pool asks of the blacklist: `allocate_nodes(candidates, required_count)`, where `none`
-- stands for an exception.
abbrev pub Allocate : Type 0
Allocate = List String → ℕ → Option AllocationResult

-- The three groups of `_get_available_nodes_with_blacklist`.
pub record Available : Type 0 where
  pub healthy : List String
  pub degraded : List String
  pub rejected : List String

-- Without an answer of the blacklist every candidate counts as healthy.
unfoldable pub group_candidates : List String → Option AllocationResult → Available
group_candidates candidates none = record {
  healthy = candidates;
  degraded = List.[];
  rejected = List.[];
}
group_candidates candidates (some r) = record {
  healthy = deduplicate_and_sort (inter r.healthy_nodes candidates);
  degraded = deduplicate_and_sort (inter r.backup_nodes candidates);
  rejected = deduplicate_and_sort (inter r.rejected_nodes candidates);
}

unfoldable pub extend_running : List String → NodePool → NodePool
extend_running new p = record p { running_nodes = p.running_nodes ++ new }

-- What both methods end with: the chosen nodes run, and the first running node is the master.
unfoldable pub commit_running : ℕ → List String → Exec NodePool (Option (Option String))
unfolding extend_running
commit_running slots new = do
  modify (extend_running new)
  validate_and_fix_constraints
  write_slots_running_nodes_file slots
  modify persist_all_nodes
  gets (λ q. some (head? q.running_nodes))

module _ (allocate : Allocate) where
  -- `_get_available_nodes_with_blacklist`
  unfoldable pub get_available_nodes_with_blacklist : List String → Available
  unfolding group_candidates
  get_available_nodes_with_blacklist candidates =
      group_candidates candidates (allocate candidates (length candidates))

  -- `apply_node_num_resources`; `none` is the answer `(None, None)`, and `some m` is `m` with the
  -- path of the slots file.
  unfoldable pub apply_node_num_resources : ℕ → ℕ → Exec NodePool (Option (Option String))
  unfolding get_available_nodes_with_blacklist commit_running
  apply_node_num_resources nodes_num slots p =
      let a = get_available_nodes_with_blacklist p.backup_nodes in
      if ltb (length a.healthy + length a.degraded) nodes_num
      then (ok none, p)
      else (do new ← select_nodes nodes_num a.healthy a.degraded; commit_running slots new) p

  -- `apply_node_list_resources`
  unfoldable pub apply_node_list_resources :
      List String → ℕ → Exec NodePool (Option (Option String))
  unfolding get_available_nodes_with_blacklist commit_running
  apply_node_list_resources target_nodes slots p =
      let a = get_available_nodes_with_blacklist p.backup_nodes in
      if is_empty target_nodes
      then (ok none, p)
      else if ltb (length a.healthy + length a.degraded) (length target_nodes)
      then (ok none, p)
      else (do new ← select_targets target_nodes a.healthy a.degraded; commit_running slots new) p
