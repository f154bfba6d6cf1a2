-- ===== src/HostPolicy.antt =====
-- crates/ddm-core/src/host_policy: what is known of each host, the segment count that follows from
-- it, and the snapshot that is saved between runs.
pub mod Key
pub mod State
pub mod Snapshot
