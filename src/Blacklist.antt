-- ===== src/Blacklist.antt =====
-- hcu-training-reliability/cluster_manager/node_management/node_blacklist_manager.py: which nodes
-- have failed, how often and how badly, which of them a job may use, and the file that remembers it.
pub mod Floats
pub mod Records
pub mod Scoring
pub mod Rack
pub mod Manager
pub mod Lawful
pub mod Best
pub mod Pool
pub mod Choice
pub mod Bans
pub mod Storage
pub mod Restored
mod Examples
