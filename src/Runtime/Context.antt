-- ===== src/Runtime/Context.antt =====
-- runtime_context.py: the job's configuration and state, and how a fault of the running job finds the
-- node to take out of the pool.
pub mod Isolation
pub mod Removed
use cluster_manager_das.Prelude.{
  ℕ, zero, suc, ◌/◌, String, Bool, true, false, ◌&&◌, ◌||◌, not, ◌==◌, List, Option, none, some,
  leb, nat_eq, if◌then◌else◌,
}
use cluster_manager_das.Prelude.Exec.{Result, ok, err}
use cluster_manager_das.Runtime.Rank.{Integer, number, minus, parse_int, parse_rank_from_fault}
use cluster_manager_das.Runtime.RunState.{RunState, Config, SavedState, set_state}
use cluster_manager_das.Runtime.Proxy.{
  NodePoolProxy, FaultReport, add_fault_node, add_fault_node_no,
}

-- A value in a payload or in the job's arguments.
pub data Value : Type 0 where
  integer : Integer → Value
  text : String → Value

-- The keys of `payload["data"]` that are read, each missing or present; the host and the fault's
-- description are texts.
pub record FaultData : Type 0 where
  pub fault_type : Option String
  pub rank : Option Value
  pub host : Option String
  pub fault_info : Option String
  pub runtime : Option String
  pub message : Option String

-- The payload of an event; without "data" the dictionary counts as empty.
pub record Payload : Type 0 where
  pub data_of : Option FaultData
  pub cur_iter : Option ℕ
  pub timestamp : Option ℕ
  pub is_ckpt : Bool
  pub abnormal_nodes : List String

-- The keys of `runtime_args` that are read; `none` stands for `None` or a missing key.
pub record JobConfig : Type 0 where
  pub slots_per_node : Value
  pub mpi_ranks_per_node : Option Value
  pub required_nodes_num : ℕ
  pub megatron_config : Config

pub data RecoveryPhase : Type 0 where
  stopping restarting : RecoveryPhase

-- `RetryInfo`
pub record RetryInfo : Type 0 where
  pub retry_count : ℕ
  pub last_retry_time : Option ℕ

-- `RetryInfo.reset`
abbrev pub reset_retry : RetryInfo
reset_retry = record { retry_count = 0; last_retry_time = none }

-- The fields of `RuntimeContext`, with the file of the run state.
pub record RuntimeContext : Type 0 where
  pub config : JobConfig
  pub node_pool_proxy : NodePoolProxy
  pub run_state : RunState
  pub state_file : Option SavedState
  pub state_writable : Bool
  pub retry_info : RetryInfo
  pub recovery_phase : Option RecoveryPhase

-- `set_state`
unfoldable pub set_run_state : RunState → RuntimeContext → RuntimeContext
unfolding set_state
set_run_state s c = record c {
  run_state = s;
  state_file = set_state c.state_writable s c.config.megatron_config c.state_file;
}

abbrev pub get_or : String → Option String → String
get_or default none = default
get_or default (some s) = s

-- `int(fault_info)`
unfoldable pub int_of : Value → Option Integer
int_of (integer i) = some i
int_of (text s) = parse_int s

-- `_parse_rank_from_fault(fault_info)`: the text of a number has no comma, and is refused.
unfoldable pub launcher_rank : Value → Option Integer
launcher_rank (integer i) = none
launcher_rank (text s) = parse_rank_from_fault s

-- A number of ranks for each node: a positive integer.
unfoldable pub positive : Option Value → Option ℕ
positive (some (integer (number (suc n)))) = some (suc n)
positive _ = none

-- `nodeno`, where the rank is not negative and the node belongs to the allocation; no required number
-- of nodes means no bound.
unfoldable pub node_number : Option Integer → Option ℕ → ℕ → Option ℕ
node_number (some (number rank)) (some per_node) required =
    if not (nat_eq required 0) && leb required (rank / per_node)
    then none
    else some (rank / per_node)
node_number _ _ _ = none

-- The node behind a rank: a training rank counts the slots of a node, a rank of the launcher its
-- processes. `none` stands for every reason to refuse.
unfoldable pub locate : JobConfig → String → Value → Option ℕ
unfolding int_of launcher_rank positive node_number
locate config fault_type info =
    if fault_type == "global_rank"
    then node_number (int_of info) (positive (some config.slots_per_node)) config.required_nodes_num
    else node_number (launcher_rank info) (positive config.mpi_ranks_per_node)
        config.required_nodes_num

-- `data.get("message", data.get("type", "unknown"))`
unfoldable pub message_of : Option FaultData → String
message_of none = "unknown"
message_of (some d) = get_or (get_or "unknown" d.fault_type) d.message

-- An exception below counts as a failure; what was written stays.
unfoldable pub answered : Result (Unit {0}) × NodePoolProxy → RuntimeContext → Bool × RuntimeContext
answered (ok u, x) c = (true, record c { node_pool_proxy = x })
answered (err e, x) c = (false, record c { node_pool_proxy = x })

abbrev text_of : Value → String
text_of (integer i) = ""
text_of (text s) = s

-- The branch for a rank, with the number of its node.
unfoldable pub mark_node_number :
    (FaultReport → Bool) → Payload → Option ℕ → RuntimeContext → Bool × RuntimeContext
unfolding answered message_of
mark_node_number raises reason none c = (false, c)
mark_node_number raises reason (some nodeno) c =
    answered
      (add_fault_node_no raises nodeno (message_of reason.data_of) reason.cur_iter
        c.node_pool_proxy)
      c

-- `handle_runtime_fault`; a node fault names its node by a text.
unfoldable pub handle_runtime_fault :
    (FaultReport → Bool) → Value → String → Payload → RuntimeContext → Bool × RuntimeContext
unfolding locate answered message_of mark_node_number
handle_runtime_fault raises info fault_type reason c =
    if fault_type == "global_rank" || fault_type == "mpi_rank" || fault_type == "rank"
    then mark_node_number raises reason (locate c.config fault_type info) c
    else if fault_type == "node"
    then answered
        (add_fault_node raises (text_of info) (message_of reason.data_of) reason.cur_iter
          c.node_pool_proxy)
        c
    else (fault_type == "proc", c)
