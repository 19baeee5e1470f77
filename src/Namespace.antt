-- ===== src/Namespace.antt =====
-- The namespaces of materialized tables: `validate_namespace` and `NamespaceRegistry` of
-- crates/pawrly-engine/src/namespace.rs, with `sanitize_segment` of crates/pawrly-engine/src/local.rs.
pub mod Names
pub mod Registry
mod Tests
