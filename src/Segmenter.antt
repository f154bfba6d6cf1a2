-- ===== src/Segmenter.antt =====
-- crates/ddm-core/src/segmenter: segment planning and the completion bitmap.
pub mod Range
pub mod Bitmap
