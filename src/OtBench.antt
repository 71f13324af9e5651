-- ===== src/OtBench.antt =====
-- tools/ot-bench.
pub mod Frontier
pub mod Graph
pub mod TextOp
pub mod Document
pub mod Replay
mod Examples
