-- ===== src/Query.antt =====
-- The nodes of a query, of faststdb/query.
pub mod Limiter
mod Tests
