-- ===== src/Trading.antt =====
-- The trading part of the backend: src/modules/trading.
pub mod Ledger
pub mod MaxBuy
pub mod QuoteCache
pub mod Holders
pub mod Depth
pub mod Broadcaster
