-- ===== src/NodePool/Calls/Reachable.antt =====
-- The rules hold of every pool that the calls lead to.
use cluster_manager_das.Prelude.{
  ℕ, ◌+◌, String, Bool, true, List, [], ◌∷◌, ◌≡◌, get_elem?, is_empty, length, Bool-cases,
  Option-cases, inl, inr,
}
use cluster_manager_das.Prelude.Names.{contains, inter}
use cluster_manager_das.NodePool.Marking.{
  reset_node_pool, add_abnormal_runing_nodeno, add_abnormal_runing_error_nodes,
}
use cluster_manager_das.NodePool.Partition.Resetting.{reset_node_pool_accepts}
use cluster_manager_das.NodePool.State.{NodePool, deduplicate_and_sort}
use cluster_manager_das.NodePool.Partition.Rules.{
  IsPartition, IsPartition-aside, persist_all_nodes-IsPartition,
}
use cluster_manager_das.NodePool.Partition.Marking.{add_abnormal_nodes-Kept}
use cluster_manager_das.NodePool.Partition.Restoring.{
  add_total_nodes-Kept, add_normal_nodes-Kept, remove_abnormal_nodes-Kept,
  release_runing_nodes-IsPartition,
}
use cluster_manager_das.NodePool.Allocation.Promise.{IsLawful, apply_node_num_resources-IsPartition}
use cluster_manager_das.NodePool.Allocation.Listed.{apply_node_list_resources-IsPartition}
use cluster_manager_das.NodePool.Calls.{
  PoolCall, apply_list, add_total, add_normal, add_abnormal, remove_abnormal, apply_num, release,
  persist, reset, abnormal_at, abnormal_errors, after_call, after_calls,
}

-- The blacklists that the calls ask keep their law, each with its own fatal nodes, and the abnormal
-- nodes of a reset belong to its total.
pub data HasLaw : PoolCall → Type 0 where
  total_law : {nodes : List String} → HasLaw (add_total nodes)
  normal_law : {nodes : List String} → HasLaw (add_normal nodes)
  abnormal_law : {nodes : List String} → HasLaw (add_abnormal nodes)
  remove_law : {nodes : List String} {target : String} → HasLaw (remove_abnormal nodes target)
  release_law : HasLaw release
  persist_law : HasLaw persist
  position_law : {nodeno : ℕ} → HasLaw (abnormal_at nodeno)
  errors_law : {nodes : List String} → HasLaw (abnormal_errors nodes)
  reset_law :
      {total abnormal : List String}
      → ((x : String)
          → contains x (deduplicate_and_sort abnormal) ≡ true
          → contains x (deduplicate_and_sort total) ≡ true)
      → HasLaw (reset total abnormal)
  apply_law :
      {allocate : _} {n slots : ℕ} (is_fatal : String → Bool)
      → IsLawful allocate is_fatal
      → HasLaw (apply_num allocate n slots)
  apply_list_law :
      {allocate : _} {targets : List String} {slots : ℕ} (is_fatal : String → Bool)
      → IsLawful allocate is_fatal
      → HasLaw (apply_list allocate targets slots)

abbrev pub AllLawful : List PoolCall → Type 0
AllLawful [] = Unit
AllLawful (c ∷ cs) = HasLaw c × AllLawful cs

pub reset_node_pool-IsPartition :
    (p : NodePool) (total abnormal : List String)
    → ((x : String)
        → contains x (deduplicate_and_sort abnormal) ≡ true
        → contains x (deduplicate_and_sort total) ≡ true)
    → IsPartition (reset_node_pool total abnormal p).1
reset_node_pool-IsPartition p total abnormal sub =
    let (q, done, part, _, _, _) = reset_node_pool_accepts p total abnormal sub in rw done part

module _ (p : NodePool) (h : IsPartition p) where
  abnormal_at-IsPartition : (n : ℕ) → IsPartition (add_abnormal_runing_nodeno n p).1
  unfolding add_abnormal_runing_nodeno
  abnormal_at-IsPartition n = elim (Option-cases (get_elem? p.running_nodes n)) [
    | inl e ↦ rw (add_abnormal_runing_nodeno, e) h
    | inr (node, e) ↦
        rw (add_abnormal_runing_nodeno, e)
          (add_abnormal_nodes-Kept _
            (IsPartition-aside p h p.disk (p.len_running_abnormal_nodes + 1)) (node ∷ [])).partition
  ]

  abnormal_errors-IsPartition :
      (nodes : List String) → IsPartition (add_abnormal_runing_error_nodes nodes p).1
  unfolding add_abnormal_runing_error_nodes
  abnormal_errors-IsPartition nodes =
      let valid = inter nodes p.running_nodes in
      let k = add_abnormal_nodes-Kept _ (IsPartition-aside p h p.disk (length valid)) valid in
      elim (Bool-cases (is_empty valid)) [ inl e ↦ rw e h | inr e ↦ rw (e, k.returned) k.partition ]

pub after_call-IsPartition :
    {c : PoolCall} (p : NodePool) → HasLaw c → IsPartition p → IsPartition (after_call c p)
unfolding after_call
after_call-IsPartition p (total_law {nodes = ns}) h = (add_total_nodes-Kept p h ns).partition
after_call-IsPartition p (normal_law {nodes = ns}) h = (add_normal_nodes-Kept p h ns).partition
after_call-IsPartition p (abnormal_law {nodes = ns}) h = (add_abnormal_nodes-Kept p h ns).partition
after_call-IsPartition p (remove_law {nodes = ns} {target = t}) h =
    (remove_abnormal_nodes-Kept p h ns t).partition
after_call-IsPartition p release_law h = release_runing_nodes-IsPartition p h
after_call-IsPartition p persist_law h = persist_all_nodes-IsPartition p h
after_call-IsPartition p (position_law {nodeno = n}) h = abnormal_at-IsPartition p h n
after_call-IsPartition p (errors_law {nodes = ns}) h = abnormal_errors-IsPartition p h ns
after_call-IsPartition p (reset_law {total = t} {abnormal = a} sub) h =
    reset_node_pool-IsPartition p t a sub
after_call-IsPartition p (apply_list_law {allocate = a} {targets = ns} {slots = s} f law) h =
    apply_node_list_resources-IsPartition a f law p h ns s
after_call-IsPartition p (apply_law {allocate = a} {n = n} {slots = s} f law) h =
    apply_node_num_resources-IsPartition a f law p h n s

-- From a pool that follows the rules, calls in any order of add_total_nodes, add_normal_nodes,
-- add_abnormal_nodes, add_abnormal_runing_nodeno, add_abnormal_runing_error_nodes,
-- remove_abnormal_nodes, reset_node_pool, apply_node_num_resources, apply_node_list_resources,
-- release_runing_nodes and _persist_all_nodes lead to one that does, where the abnormal nodes of
-- each reset belong to its total and each blacklist that is asked offers no fatal node and no node
-- in two groups: running, backup and abnormal nodes are disjoint and together the total, whichever
-- calls are refused or raise.
pub after_calls-IsPartition :
    (cs : List PoolCall) (p : NodePool)
    → AllLawful cs
    → IsPartition p
    → IsPartition (after_calls cs p)
unfolding after_calls
after_calls-IsPartition [] p law h = h
after_calls-IsPartition (c ∷ cs) p law h =
    after_calls-IsPartition cs (after_call c p) law.1 (after_call-IsPartition p law.0 h)
