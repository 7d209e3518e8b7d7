-- ===== src/Partitions.antt =====
-- The time partitions of the big tables and the identifiers that they are keyed by
-- (glitchtip/partition_manager.py).
pub mod Uuid7
pub mod Tables
pub mod Manager
pub mod Maintenance
mod Samples
