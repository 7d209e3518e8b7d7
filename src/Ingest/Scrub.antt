-- ===== src/Ingest/Scrub.antt =====
-- Scrubbing of sensitive data (apps/event_ingest/pii_scrubber.py).
pub mod Luhn
pub mod Keys
pub mod Walk
pub mod Event
mod Samples
