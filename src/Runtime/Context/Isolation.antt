-- ===== src/Runtime/Context/Isolation.antt =====
-- Handling a fault keeps the rules of the pool and the snapshot's file, and takes the node that it
-- finds out of the pool.
use cluster_manager_das.Prelude.{
  ℕ, String, Bool, true, false, ◌||◌, ◌==◌, List, [], ◌∷◌, Option, none, some, ◌≡◌, refl, ap, sym,
  ◌∙◌, is_empty, if_cases, Bool-cases, inl, inr,
}
use cluster_manager_das.Prelude.Names.{inter}
use cluster_manager_das.Prelude.Exec.{Exec, Result, ok, err}
use cluster_manager_das.NodePool.State.{NodePool}
use cluster_manager_das.NodePool.Marking.{release_runing_nodes}
use cluster_manager_das.NodePool.Partition.Restoring.{release_runing_nodes-IsPartition}
use cluster_manager_das.NodePool.Partition.Rules.{IsPartition}
use cluster_manager_das.NodePool.Partition.Marking.{add_abnormal_nodes-Kept}
use cluster_manager_das.Runtime.Proxy.{
  NodeSnapshot, FaultReport, NodePoolProxy, handle_faults, file_snapshot, release_nodes,
  on_snapshot, persisted, add_current_snapshot_param, report_fault, on_pool, note_fault,
  add_fault_node, add_fault_node_no, add_found_node,
}
use cluster_manager_das.Runtime.Context.{
  Value, Payload, RuntimeContext, locate, answered, mark_node_number, handle_runtime_fault,
}

-- A snapshot without its faults and running nodes, which the monitor notes without writing the file.
abbrev pub without_faults : NodeSnapshot → NodeSnapshot
without_faults s = record s { fault_nodes = []; fault_count = 0; running_nodes = [] }

-- The pool follows its rules, and the file has the current snapshot, but for those.
pub record IsKept (x : NodePoolProxy) : Type 0 where
  pub partition : IsPartition x.node_pool
  pub saved :
      on_snapshot without_faults x.current_snapshot_file
      ≡ on_snapshot without_faults x.current_snapshot

persisted_lem :
    (change : NodeSnapshot → NodeSnapshot) (s f : Option NodeSnapshot)
    → on_snapshot without_faults f ≡ on_snapshot without_faults s
    → on_snapshot without_faults (persisted (on_snapshot change s) f)
      ≡ on_snapshot without_faults (on_snapshot change s)
persisted_lem change none f e = e
persisted_lem change (some s) f e = refl

-- A change of the pool under its rules.
pub IsKept-on_pool :
    {A : Type 0} (method : Exec NodePool A) (x : NodePoolProxy)
    → IsKept x
    → IsPartition (method x.node_pool).1
    → IsKept (on_pool method x).1
unfolding on_pool
IsKept-on_pool method x h p = record { partition = p; saved = h.saved }

pub add_current_snapshot_param-IsKept :
    (change : NodeSnapshot → NodeSnapshot) (x : NodePoolProxy)
    → IsKept x
    → IsKept (add_current_snapshot_param change x)
unfolding add_current_snapshot_param
add_current_snapshot_param-IsKept change x h = record {
  partition = h.partition;
  saved = persisted_lem change x.current_snapshot x.current_snapshot_file h.saved;
}

module _ (now : ℕ) (x : NodePoolProxy) (h : IsKept x) where
  file_snapshot-IsKept :
      (nodes : List String) (o : Option NodeSnapshot)
      → o ≡ x.current_snapshot
      → IsKept
          (file_snapshot now nodes o (record x { node_pool = release_runing_nodes x.node_pool }))
  unfolding file_snapshot
  file_snapshot-IsKept nodes none e = record {
    partition = release_runing_nodes-IsPartition x.node_pool h.partition;
    saved = h.saved;
  }
  file_snapshot-IsKept nodes (some s) e = record {
    partition = release_runing_nodes-IsPartition x.node_pool h.partition;
    saved = refl;
  }

  pub release_nodes-IsKept : IsKept (release_nodes now x)
  unfolding release_nodes
  release_nodes-IsKept =
      let k = file_snapshot-IsKept x.node_pool.running_nodes x.current_snapshot refl in
      record { partition = k.partition; saved = k.saved }

faults_saved :
    (change : NodeSnapshot → NodeSnapshot)
    → ((s : NodeSnapshot) → without_faults (change s) ≡ without_faults s)
    → (s : Option NodeSnapshot)
    → on_snapshot without_faults (on_snapshot change s) ≡ on_snapshot without_faults s
faults_saved change same none = refl
faults_saved change same (some s) = ap some (same s)

pub handle_faults-IsKept :
    (failed running : List String) (reasons : List (String × String)) (x : NodePoolProxy)
    → IsKept x
    → IsKept (handle_faults failed running reasons x)
unfolding handle_faults
handle_faults-IsKept failed running reasons x h =
    if_cases IsKept (is_empty (inter failed running)) _ _ h (record {
      partition = h.partition;
      saved = h.saved ∙ sym (faults_saved _ (λ s. refl) x.current_snapshot);
    })

note_fault-IsKept :
    (o : Option NodeSnapshot) (node message : String) (unbound : Bool) (x : NodePoolProxy)
    → IsKept x
    → IsKept (note_fault o node message unbound x).1
unfolding note_fault
note_fault-IsKept none node message unbound x h = h
note_fault-IsKept (some s) node message true x h = h
note_fault-IsKept (some s) node message false x h = add_current_snapshot_param-IsKept _ x h

module _ (raises : FaultReport → Bool) (message : String) (cur_iter : Option ℕ) (x : NodePoolProxy)
    (h : IsKept x) where
  pub add_fault_node-IsKept :
      (node : String) → IsKept (add_fault_node raises node message cur_iter x).1
  unfolding add_fault_node on_pool report_fault
  add_fault_node-IsKept node =
      let k = add_abnormal_nodes-Kept x.node_pool h.partition (node ∷ []) in
      rw k.returned
        (note_fault-IsKept _ node message _ _ (record { partition = k.partition; saved = h.saved }))

  add_found_node-IsKept :
      (o : Option String) → IsKept (add_found_node raises o message cur_iter x).1
  unfolding add_found_node
  add_found_node-IsKept none = h
  add_found_node-IsKept (some node) = add_fault_node-IsKept node

module _ (raises : FaultReport → Bool) (reason : Payload) (c : RuntimeContext)
    (h : IsKept c.node_pool_proxy) where
  -- What handling a fault leaves as it is: everything but the proxy.
  pub record IsHandled (d : RuntimeContext) : Type 0 where
    pub kept : IsKept d.node_pool_proxy
    pub same : d ≡ record c { node_pool_proxy = d.node_pool_proxy }

  answered-IsHandled :
      (r : Result (Unit {0}) × NodePoolProxy) → IsKept r.1 → IsHandled (answered r c).1
  unfolding answered
  answered-IsHandled (ok u, x) k = record { kept = k; same = refl }
  answered-IsHandled (err e, x) k = record { kept = k; same = refl }

  mark_node_number-IsHandled :
      (nodeno : Option ℕ) → IsHandled (mark_node_number raises reason nodeno c).1
  unfolding mark_node_number add_fault_node_no
  mark_node_number-IsHandled none = record { kept = h; same = refl }
  mark_node_number-IsHandled (some n) =
      answered-IsHandled _ (add_found_node-IsKept raises _ reason.cur_iter c.node_pool_proxy h _)

  -- Handling a fault, whatever its kind and whether or not it can be located, keeps the rules of the
  -- pool and the snapshot's file, and changes nothing of the context but the proxy.
  pub handle_runtime_fault-IsHandled :
      (info : Value) (fault_type : String)
      → IsHandled (handle_runtime_fault raises info fault_type reason c).1
  unfolding handle_runtime_fault
  handle_runtime_fault-IsHandled info fault_type =
      elim (Bool-cases
        (fault_type == "global_rank" || fault_type == "mpi_rank" || fault_type == "rank")) [
          | inl e ↦ rw e (mark_node_number-IsHandled (locate c.config fault_type info))
          | inr e ↦ rw e (elim (Bool-cases (fault_type == "node")) [
            | inl n ↦ rw n (
                answered-IsHandled _
                  (add_fault_node-IsKept raises _ reason.cur_iter c.node_pool_proxy h _))
            | inr n ↦ rw n (record { kept = h; same = refl })
          ])
        ]
