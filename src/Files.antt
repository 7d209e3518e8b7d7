-- ===== src/Files.antt =====
-- Uploaded files and artifact bundles (apps/files).
pub mod Assemble
pub mod Bundles
mod Samples
