-- ===== src/Common.antt =====
-- Shared helpers of the backend: src/common, and the decimal strings of numbers.
pub mod Decimal
pub mod Dict
pub mod Pagination
pub mod TextDict
pub mod Texts
pub mod Trim
