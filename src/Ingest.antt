-- ===== src/Ingest.antt =====
-- Ingest of events (apps/event_ingest).
pub mod Scrub
pub mod Auth
