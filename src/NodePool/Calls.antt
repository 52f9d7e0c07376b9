-- ===== src/NodePool/Calls.antt =====
-- The methods of the pool as calls that its clients make in any order: all that change its lists but
-- the class method `clean_init`.
pub mod Reachable
use cluster_manager_das.Prelude.{ℕ, String, List, [], ◌∷◌}
use cluster_manager_das.NodePool.State.{NodePool, persist_all_nodes}
use cluster_manager_das.NodePool.Marking.{
  add_total_nodes, add_normal_nodes, add_abnormal_nodes, remove_abnormal_nodes,
  release_runing_nodes, reset_node_pool, add_abnormal_runing_nodeno,
  add_abnormal_runing_error_nodes,
}
use cluster_manager_das.NodePool.Allocation.{
  Allocate, apply_node_num_resources, apply_node_list_resources,
}

-- A call with its arguments, and with the blacklist of its time where it asks the blacklist.
pub data PoolCall : Type 0 where
  add_total : List String → PoolCall
  add_normal : List String → PoolCall
  add_abnormal : List String → PoolCall
  remove_abnormal : List String → String → PoolCall
  apply_num : Allocate → ℕ → ℕ → PoolCall
  apply_list : Allocate → List String → ℕ → PoolCall
  release : PoolCall
  reset : List String → List String → PoolCall
  abnormal_at : ℕ → PoolCall
  abnormal_errors : List String → PoolCall
  persist : PoolCall

-- The pool after a call, whether or not the call raised.
unfoldable pub after_call : PoolCall → NodePool → NodePool
after_call (add_total nodes) p = (add_total_nodes nodes p).1
after_call (add_normal nodes) p = (add_normal_nodes nodes p).1
after_call (add_abnormal nodes) p = (add_abnormal_nodes nodes p).1
after_call (remove_abnormal nodes target) p = (remove_abnormal_nodes nodes target p).1
after_call (apply_num allocate n slots) p = (apply_node_num_resources allocate n slots p).1
after_call (apply_list allocate targets slots) p =
    (apply_node_list_resources allocate targets slots p).1
after_call release p = release_runing_nodes p
after_call (reset total abnormal) p = (reset_node_pool total abnormal p).1
after_call (abnormal_at nodeno) p = (add_abnormal_runing_nodeno nodeno p).1
after_call (abnormal_errors nodes) p = (add_abnormal_runing_error_nodes nodes p).1
after_call persist p = persist_all_nodes p

unfoldable pub after_calls : List PoolCall → NodePool → NodePool
unfolding after_call
after_calls [] p = p
after_calls (c ∷ cs) p = after_calls cs (after_call c p)
