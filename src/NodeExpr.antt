-- ===== src/NodeExpr.antt =====
-- hcu-training-reliability/cluster_manager/utils/string_utils.py: expressions that stand for several
-- nodes, as in "b11r4n[20-22],b11r4n25", and the reasons for nodes out of service.
pub mod Texts
pub mod Expand
mod Free
pub mod Ends
pub mod Sinfo
pub mod Reported
mod Examples
