-- ===== src/Spans.antt =====
-- Performance spans: cold storage (apps/performance/promotion.py) and the duration histogram
-- (apps/performance/histogram.py).
pub mod Compaction
pub mod Histogram
mod Samples
