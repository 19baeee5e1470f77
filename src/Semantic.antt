-- ===== src/Semantic.antt =====
-- The choice of a rollup for a semantic query: `TimeGrain` of crates/pawrly-core/src/semantic.rs and
-- crates/pawrly-semantic/src/rollup.rs.
pub mod Grain
pub mod Rollup
mod Tests
