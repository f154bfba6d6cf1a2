-- ===== src/Retry.antt =====
-- crates/ddm-core/src/retry: classification of errors, the backoff policy and the retry loop.
pub mod Classify
pub mod Policy
pub mod Run
