-- ===== src/Protocol.antt =====
-- The protocol: the pure mathematics of src/protocol, and the service of src/modules/protocol over
-- its records.
pub mod Eip712
pub mod Constants
pub mod Template
pub mod Fault
pub mod TickMath
pub mod Arithmetic
pub mod Orientation
pub mod Curve
pub mod Ladder
pub mod SwapMath
pub mod DevBuy
pub mod PriceText
pub mod Service
