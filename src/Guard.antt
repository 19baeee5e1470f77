-- ===== src/Guard.antt =====
-- The outbound-target policy for requests that SQL drives (crates/pawrly-sources/http/src/guard.rs):
-- patterns of trusted hosts, classes of addresses, the check of a URL, the redirect policy and the
-- screen of resolved addresses.
pub mod Host
pub mod Addr
pub mod Target
pub mod Resolver
mod Tests
