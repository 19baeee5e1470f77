-- ===== src/Cache.antt =====
-- The opt-in cache of tables as Parquet files under a JSON manifest (crates/pawrly-core/src/cache.rs,
-- crates/pawrly-engine/src/cache.rs): policies, the disk, the manager, and the reads through it.
pub mod Types
pub mod Disk
pub mod Manager
pub mod Vacuum
pub mod Provider
pub mod Listing
pub mod Schedule
mod Tests
