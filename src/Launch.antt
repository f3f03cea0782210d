-- ===== src/Launch.antt =====
-- Launching a token: src/modules/launch.
pub mod Relay
pub mod Prepare
