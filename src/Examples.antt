-- ===== src/Examples.antt =====
-- The theorems at concrete inputs, and runs of the definitions.
mod Segments
mod Retries
mod Hosts
mod Jobs
mod Probes
mod Connections
mod Transfers
mod Names
mod Whole
mod Pools
mod Multis
mod Runs
mod Queues
mod Tokens
mod Files
