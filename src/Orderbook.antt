-- ===== src/Orderbook.antt =====
-- crates/orderbook: the client of the order book.
pub mod QuoteAmounts
