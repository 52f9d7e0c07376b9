-- ===== src/Runtime.antt =====
-- hcu-training-reliability/cluster_manager/runtime: the state of one training job, how a fault of
-- the job finds the node behind it, and the state machine that restarts the job.
pub mod Rank
pub mod RunState
pub mod Proxy
pub mod Apply
pub mod Context
pub mod Machine
pub mod Calls
mod Examples
