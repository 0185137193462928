-- ===== src/Headers.antt =====
-- The headers of a response and of a request: header_parse.c, add_header.c, compute_headers.c,
-- response.c and header.c.
pub mod Parse
pub mod Print
pub mod Response
pub mod Status
pub mod Boundary
pub mod Callback
