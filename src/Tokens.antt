-- ===== src/Tokens.antt =====
-- Tokens: src/modules/tokens.
pub mod Candles
pub mod Creation
pub mod Milestones
pub mod PreLaunch
pub mod Listing
