-- ===== src/Settlement.antt =====
-- crates/settlement: the encoder of settlements, and refunds.
pub mod Abi
pub mod Encoder
pub mod Refunds
mod Tests
