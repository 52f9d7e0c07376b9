-- ===== src/NodePool.antt =====
-- hcu-training-reliability/cluster_manager/node_management/node_pool.py: the pool of nodes of one
-- training job. `State` has the lists and their upkeep, `Marking` the methods that move nodes in and
-- out of the abnormal list, `Allocation` those that hand nodes to a job, `Startup` the constructor.
pub mod State
pub mod Marking
pub mod Allocation
pub mod Startup
pub mod Partition
pub mod Calls
pub mod Examples
