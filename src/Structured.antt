-- ===== src/Structured.antt =====
-- src/server/types.rs: the structured content of a result.
pub mod Precision
pub mod Scan
pub mod Decimal
pub mod Meaning
pub mod References
pub mod Entered
pub mod Resolved
pub mod Content
pub mod Kept
mod Examples
