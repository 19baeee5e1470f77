-- ===== src/Http/Paginate.antt =====
-- crates/pawrly-sources/http/src/paginate.rs: paths into JSON, the `Link` header and the request for the
-- next page, with `PaginationConfig` of crates/pawrly-sources/http/src/source.rs.
pub mod JsonPath
pub mod Link
pub mod Next
