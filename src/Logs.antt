-- ===== src/Logs.antt =====
-- Log events (apps/logs).
pub mod Span
pub mod Store
pub mod Items
pub mod Process
mod Samples
