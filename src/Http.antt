-- ===== src/Http.antt =====
-- The HTTP source (crates/pawrly-sources/http/src): from the parameters of a query to the rows of its
-- answer.
pub mod Json
pub mod Paginate
pub mod Source
pub mod Expr
pub mod Table
pub mod Response
pub mod Auth
pub mod Body
pub mod Request
pub mod Retry
pub mod Page
pub mod Fetch
pub mod Filters
pub mod Bind
pub mod Scan
pub mod Columns
mod Tests
