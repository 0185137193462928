-- ===== src/Write.antt =====
-- The `data_write_callback`s that produce a request body.
pub mod Source
pub mod Block
pub mod Blocks
pub mod Boundary
pub mod Multipart
