-- ===== src/UrlModel.antt =====
-- crates/ddm-core/src/url_model: file names for downloads. The parsing of a Content-Disposition
-- header is not modelled; what it gives is an argument here.
pub mod Sanitize
pub mod Unique
pub mod Disposition
pub mod Derive
