-- ===== src/Cluster.antt =====
-- xerv-cluster: the replicated state of a cluster and its Raft state machine.
pub mod Command
pub mod State
pub mod Apply
pub mod Machine
mod Scenarios
