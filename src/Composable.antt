-- ===== src/Composable.antt =====
-- crates/composable: conditional orders and their Merkle multiplexer.
pub mod Types
pub mod Twap
pub mod Gat
pub mod StopLoss
pub mod Params
pub mod Utils
pub mod Merkle
pub mod Multiplexer
pub mod Calldata
mod Tests
