-- ===== src/DiamondTypes/Encoding.antt =====
-- The encodings of tools/diamond-types/src/encoding.
pub mod Errors
pub mod Varint
pub mod Unrolled
pub mod Zigzag
pub mod BufParser
mod Examples
