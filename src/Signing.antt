-- ===== src/Signing.antt =====
-- crates/signing: the order's hash and identity, signing and the calldata of cancellations.
pub mod Eip712
pub mod Uid
pub mod Sign
pub mod Calldata
mod Tests
