-- ===== src/Events.antt =====
-- Processing of issue events and transactions (apps/event_ingest/process_event.py).
pub mod Issues
pub mod Update
pub mod Releases
pub mod Stats
pub mod Tags
pub mod Search
pub mod Transactions
pub mod Stacktraces
mod Samples
