-- ===== src/Tests.antt =====
-- Tests by evaluation, and each result at a concrete input.
mod TickMath
mod Geometry
mod RateLimit
mod Search
mod Trading
mod Launch
mod DevBuy
mod Swaps
mod Services
mod Candles
mod Comments
mod Prepare
mod Sessions
mod Addresses
mod Tokens
mod Queries
mod Profiles
mod Statements
mod Holders
