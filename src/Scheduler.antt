-- ===== src/Scheduler.antt =====
-- crates/ddm-core/src/scheduler: the connection budget shared by the jobs, the choice of the
-- segment count, and the run of one job.
pub mod Budget
pub mod Choose
pub mod Execute
pub mod RunJob
pub mod Parallel
