-- ===== src/Downloader.antt =====
-- crates/ddm-core/src/downloader: the transfer of one segment into the file.
pub mod Headers
pub mod File
pub mod Segment
pub mod Handler
pub mod Tally
pub mod Pool
pub mod Unbounded
pub mod Multi
pub mod Whole
