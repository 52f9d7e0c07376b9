-- ===== src/Topology.antt =====
-- stack-analyzer/stack_analyzer/megatron_topology.py: which ranks of a training job form a group, by
-- the sizes of its parallel dimensions and their order.
pub mod Ranks
pub mod Tokens
pub mod Layout
pub mod Digits
pub mod Place
pub mod Groups
mod Generated
pub mod Inferred
mod Examples
