-- ===== src/Http.antt =====
-- crates/http: the retry policy, and the request loop of its clients.
pub mod Retry
mod Tests
