-- ===== src/Runtime/Proxy.antt =====
-- nhc_monitor.py: what `NodePoolProxy` adds to the pool for the job's own thread: the snapshot of the
-- run, which is written to a file at every change, and the marking of nodes that the log accuses.
-- A time is a number of seconds. Every file can be written.
use cluster_manager_das.Prelude.{
  ℕ, ◌+◌, String, Bool, ◌==◌, List, [], ◌∷◌, Option, none, some, get_elem?, is_empty, nat_eq,
  if◌then◌else◌,
}
use cluster_manager_das.Prelude.Names.{inter}
use cluster_manager_das.Prelude.Exec.{Exec, ok, err, name_error, modify, pure, ◌>>◌}
use cluster_manager_das.NodePool.State.{NodePool}
use cluster_manager_das.NodePool.Marking.{add_abnormal_nodes, release_runing_nodes}

-- `NodeSnapshot`, without `avg_iter_time`, which no method here writes.
pub record NodeSnapshot : Type 0 where
  pub start_time : Option ℕ
  pub stop_time : Option ℕ
  pub apply_time : Option ℕ
  pub release_time : Option ℕ
  pub running_nodes : List String
  pub fault_nodes : List (String × String)
  pub fault_count : ℕ
  pub first_iter : Option ℕ
  pub first_iter_time : Option ℕ
  pub last_iter : Option ℕ
  pub last_iter_time : Option ℕ
  pub last_ckpt_iter : Option ℕ
  pub last_ckpt_iter_time : Option ℕ

-- A call of the blacklist's `report_fault`.
pub record FaultReport : Type 0 where
  pub node_name : String
  pub description : String
  pub micro_step : Option ℕ

-- The fields of `NodePoolProxy` that the job's thread uses; `snapshots` has the release times as its
-- keys, and `reports` are the calls of the blacklist, the last one first.
pub record NodePoolProxy : Type 0 where
  pub node_pool : NodePool
  pub snapshots : List (ℕ × NodeSnapshot)
  pub current_snapshot : Option NodeSnapshot
  pub last_snapshot : Option NodeSnapshot
  -- the content of current_snapshot.json.tmp
  pub current_snapshot_file : Option NodeSnapshot
  pub required_num : ℕ
  pub reports : List FaultReport

-- Setting a key of a dictionary.
unfoldable pub put {ℓ} :
    {A : Type ℓ} → (A → A → Bool) → A → {B : Type ℓ} → B → List (A × B) → List (A × B)
put same key value [] = (key, value) ∷ []
put same key value ((k, v) ∷ rest) =
    let changed = put same key value rest in
    if same k key then (k, value) ∷ rest else (k, v) ∷ changed

-- The same change of the current snapshot, where there is one.
abbrev pub on_snapshot : (NodeSnapshot → NodeSnapshot) → Option NodeSnapshot → Option NodeSnapshot
on_snapshot change none = none
on_snapshot change (some s) = some (change s)

-- `_persist_current_snapshot`
abbrev pub persisted : Option NodeSnapshot → Option NodeSnapshot → Option NodeSnapshot
persisted none old = old
persisted (some s) old = some s

-- `add_current_snapshot_param`; the keyword arguments are a change of fields.
unfoldable pub add_current_snapshot_param :
    (NodeSnapshot → NodeSnapshot) → NodePoolProxy → NodePoolProxy
add_current_snapshot_param change x =
    let snapshot = on_snapshot change x.current_snapshot in
    record x {
      current_snapshot = snapshot;
      current_snapshot_file = persisted snapshot x.current_snapshot_file;
    }

-- The branch of `release_runing_nodes` that files the current snapshot.
unfoldable pub file_snapshot : ℕ → List String → Option NodeSnapshot → NodePoolProxy → NodePoolProxy
unfolding put
file_snapshot now nodes none x = x
file_snapshot now nodes (some s) x =
    let released = record s { release_time = some now; running_nodes = nodes } in
    record x {
      last_snapshot = some released;
      snapshots = put nat_eq now released x.snapshots;
      current_snapshot = none;
      current_snapshot_file = none;
    }

-- `release_runing_nodes`
unfoldable pub release_nodes : ℕ → NodePoolProxy → NodePoolProxy
unfolding file_snapshot
release_nodes now x =
    let filed =
      file_snapshot now x.node_pool.running_nodes x.current_snapshot
        (record x { node_pool = release_runing_nodes x.node_pool }) in
    record filed { required_num = 0 }

-- `bl_mgr.report_fault`: the proxy's call is noted; whether it raises is the blacklist's affair.
unfoldable pub report_fault : (FaultReport → Bool) → FaultReport → NodePoolProxy → NodePoolProxy
report_fault raises report x = record x {
  reports = if raises report then x.reports else report ∷ x.reports;
}

-- A method of the pool, called by the proxy.
unfoldable pub on_pool : {A : Type 0} → Exec NodePool A → Exec NodePoolProxy A
on_pool method x =
    let (answer, pool) = method x.node_pool in (answer, record x { node_pool = pool })

-- The end of `add_fault_nodes`, with the current snapshot; the reasons are unbound where the report
-- raised.
unfoldable pub note_fault : Option NodeSnapshot → String → String → Bool → Exec NodePoolProxy Unit
unfolding put
note_fault none node message unbound x = (ok tt, x)
note_fault (some s) node message unbound x = if unbound then (err name_error, x) else (
  ok tt,
  add_current_snapshot_param
      (λ t. record t {
        fault_nodes = put (λ a b. a == b) node message t.fault_nodes;
        fault_count = t.fault_count + 1;
        running_nodes = x.node_pool.running_nodes;
      })
      x,
)

-- `add_fault_nodes` with one node and a reason, as the runtime calls it. The node's status file is
-- left out.
unfoldable pub add_fault_node :
    (FaultReport → Bool) → String → String → Option ℕ → Exec NodePoolProxy Unit
unfolding report_fault on_pool note_fault
add_fault_node raises node message cur_iter =
    let report : FaultReport = record {
      node_name = node;
      description = message;
      micro_step = cur_iter;
    } in
    modify (report_fault raises report)
    >> on_pool (add_abnormal_nodes (node ∷ []))
    >> (λ x. note_fault x.current_snapshot node message (raises report) x)

unfoldable pub add_found_node :
    (FaultReport → Bool) → Option String → String → Option ℕ → Exec NodePoolProxy Unit
unfolding add_fault_node
add_found_node raises none message cur_iter = pure tt
add_found_node raises (some node) message cur_iter = add_fault_node raises node message cur_iter

-- `add_fault_nodes_no`: the node at a position of the running list; a position outside marks nothing.
unfoldable pub add_fault_node_no :
    (FaultReport → Bool) → ℕ → String → Option ℕ → Exec NodePoolProxy Unit
unfolding add_found_node
add_fault_node_no raises nodeno message cur_iter x =
    add_found_node raises (get_elem? x.node_pool.running_nodes nodeno) message cur_iter x

-- `dict.update` of the fault nodes
unfoldable pub put_faults : List (String × String) → List (String × String) → List (String × String)
unfolding put
put_faults [] faults = faults
put_faults ((node, reason) ∷ rest) faults = put_faults rest (put (λ a b. a == b) node reason faults)

-- `NHCMonitor._handle_faults` after its event: the faults of running nodes are noted in the current
-- snapshot, and its file is not written.
unfoldable pub handle_faults :
    List String → List String → List (String × String) → NodePoolProxy → NodePoolProxy
unfolding put_faults
handle_faults failed running reasons x =
    let noted = record x {
      current_snapshot =
          on_snapshot
            (λ s. record s {
              fault_nodes = put_faults reasons s.fault_nodes;
              fault_count = s.fault_count + 1;
              running_nodes = x.node_pool.running_nodes;
            })
            x.current_snapshot;
    } in
    if is_empty (inter failed running) then x else noted
