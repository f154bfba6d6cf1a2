-- ===== src/FetchHead.antt =====
-- crates/ddm-core/src/fetch_head: the metadata of a download, from the headers of a probe.
-- libcurl runs the requests: a transfer gives the header lines, in order, and the response code, or
-- it fails.
pub mod Parse
pub mod Probe
