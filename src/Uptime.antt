-- ===== src/Uptime.antt =====
-- Uptime monitoring (apps/uptime): which monitors a tick dispatches, how a monitor is probed, how
-- probe results are batched, and how the official state of a monitor is debounced and saved.
pub mod Monitor
pub mod Debounce
pub mod Save
pub mod Runner
pub mod Fetch
pub mod Dispatch
mod Samples
