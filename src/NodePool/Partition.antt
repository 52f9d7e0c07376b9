-- ===== src/NodePool/Partition.antt =====
-- The rules that node_pool.py states for its lists: running, backup and abnormal nodes are disjoint
-- and together the total. `Names` has the laws of the cleaned lists, `Rules` the rules and the
-- validation, and the other children the methods.
pub mod Names
pub mod Rules
pub mod Marked
pub mod Marking
pub mod Moved
pub mod Restoring
pub mod Resetting
pub mod Stale
