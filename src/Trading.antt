-- ===== src/Trading.antt =====
-- crates/trading: the costs of a quote, and the slippage that is suggested for it.
pub mod Costs
pub mod Slippage
mod Tests
