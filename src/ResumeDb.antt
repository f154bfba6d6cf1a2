-- ===== src/ResumeDb.antt =====
-- crates/ddm-core/src/resume_db: the table of jobs and the operations on it. SQLite runs the
-- statements: the table is a list of rows, a statement a function on it, and no statement fails.
pub mod Types
pub mod Jobs
pub mod Read
pub mod Queue
pub mod Added
pub mod Rows
