-- ===== src/Runtime/Apply.antt =====
-- nhc_monitor.py: `NodePoolProxy.apply_node_num_resources`, the loop that gets a job its nodes. What
-- the scheduler, the health checks and the files of other programs answer in a round is given with the
-- round; a run whose rounds are used up is still waiting. The calls of other threads in the pauses
-- are left out.

pub mod Rounds
mod Idle
pub mod Kept
pub mod Stuck
pub mod Grant
pub mod Granted
mod Examples
use cluster_manager_das.Prelude.{
  ℕ, zero, suc, ◌+◌, ◌-◌, String, Bool, true, false, not, ◌&&◌, ◌||◌, List, [], ◌∷◌, ◌++◌, Option,
  none, some, length, head?, is_empty, ltb, leb, nat_eq, if◌then◌else◌,
}
use cluster_manager_das.Prelude.Names.{first_ones, diff}
use cluster_manager_das.Prelude.Names.Strip.{valid_nodes}
use cluster_manager_das.Prelude.Exec.{PyError, name_error, index_error, Result, ok, err, Exec}
use cluster_manager_das.Hostfile.{read_hostfile, write_slotsfile}
use cluster_manager_das.NodePool.State.{NodePool}
use cluster_manager_das.NodePool.Marking.{
  Marked, add_total_nodes, add_normal_nodes, add_abnormal_nodes, reset_node_pool,
}
use cluster_manager_das.NodePool.Allocation.{Allocate, apply_node_num_resources}
use cluster_manager_das.Runtime.Proxy.{
  NodeSnapshot, FaultReport, NodePoolProxy, persisted, release_nodes, report_fault, on_pool,
}

-- An answer of `run_nhc`, with whether the check itself worked.
pub record Probe : Type 0 where
  pub healthy_nodes : List String
  pub faulty_nodes : List String
  pub probe_ok : Bool

-- One attempt of `_resubmit_job`: the answer of the submission, the number of queued nodes after the
-- pause, and the lines of the scheduler's host file.
pub record Attempt : Type 0 where
  pub submitted : Bool
  pub queued_after : ℕ
  pub hostfile_lines : List String

-- What one round meets: `allocate` is the blacklist, with the reports up to then, `queue_count` and `later_count` are the two queries of the queue, where
-- `none` is a query that failed, `additional_lines` is additional_nodes.txt, `run_nodes_nhc` the check
-- of such nodes, and `run_nhc` the check of the nodes that a file names.
pub record Round : Type 0 where
  pub now : ℕ
  pub allocate : Allocate
  pub queue_count : Option ℕ
  pub later_count : Option ℕ
  pub attempts : List Attempt
  pub additional_lines : Option (List String)
  pub run_nodes_nhc : List String → List String
  pub run_nhc : List String → Probe

-- The local variables `actual_required_num` and `need_apply`, and whether `slots_file` is bound.
pub record Request : Type 0 where
  pub actual_required_num : ℕ
  pub need_apply : Bool
  pub slots_bound : Bool

-- How a call ends: with a master node, with (None, None), with an exception, or not yet.
pub data Outcome : Type 0 where
  granted : String → Outcome
  refused : Outcome
  raised : PyError → Outcome
  waiting : Outcome

pub data Turn : Type 0 where
  done : Outcome → Turn
  again : Request → Turn

-- The lines that succ_additional_nodes.txt gets.
abbrev lines_of : Option (List String) → List String
lines_of none = []
lines_of (some lines) = lines

unfoldable pub note_added : List String → NodePoolProxy → NodePoolProxy
note_added added x =
    let old = lines_of x.node_pool.disk.succ_additional_lines in
    let new = diff added (valid_nodes old) in
    if is_empty new then x else record x {
      node_pool = record x.node_pool {
        disk = record x.node_pool.disk { succ_additional_lines = some (old ++ new) };
      };
    }

-- What follows `add_total_nodes` in `_try_load_additional_nodes`
unfoldable pub added_nodes : Result (Option (List String)) → Exec NodePoolProxy (List String)
unfolding note_added
added_nodes (err e) x = (err e, x)
added_nodes (ok none) x = (ok [], x)
added_nodes (ok (some added)) x = (ok added, note_added added x)

-- The part of it for a file that exists, with its lines
unfoldable pub load_additional :
    (List String → List String) → List String → Exec NodePoolProxy (List String)
unfolding first_ones added_nodes on_pool
load_additional check lines x =
    let passed = check (first_ones [] (valid_nodes lines)) in
    let (answer, y) = on_pool (add_total_nodes passed) x in
    if is_empty (valid_nodes lines) || is_empty passed then (ok [], x) else added_nodes answer y

-- `_try_load_additional_nodes`, where `none` stands for a missing file
unfoldable pub load_given :
    (List String → List String) → Option (List String) → Exec NodePoolProxy (List String)
unfolding load_additional
load_given check none x = (ok [], x)
load_given check (some lines) x = load_additional check lines x

abbrev back : Result {0} Unit → Result {0} Bool
back (ok _) = ok true
back (err e) = err e

-- `_resubmit_job` without a limit of attempts: whether the job is back; the attempts may be used up.
unfoldable pub resubmit_job : List Attempt → Exec NodePoolProxy Bool
unfolding on_pool
resubmit_job [] x = (ok false, x)
resubmit_job (a ∷ rest) x =
    let later = resubmit_job rest x in
    let (answer, y) = on_pool (reset_node_pool (read_hostfile a.hostfile_lines) []) x in
    if a.submitted || ltb 0 a.queued_after then (back answer, y) else later
