-- ===== src/Rle.antt =====
-- The crate tools/diamond-types/crates/rle: spans of items, and lists of spans in run-length order.
pub mod Spans
pub mod AppendRle
pub mod MergeIter
