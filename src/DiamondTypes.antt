-- ===== src/DiamondTypes.antt =====
-- The library tools/diamond-types (its src directory).
pub mod Encoding
pub mod DtRange
pub mod RangeRev
pub mod RleVec
pub mod Graph
pub mod Frontier
mod Examples
