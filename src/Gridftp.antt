-- ===== src/Gridftp.antt =====
-- Data between a GridFTP data channel and a request: read_gridftp_op.c, write_gridftp_op.c,
-- buffer_get.c, and their preparation in request.c.
pub mod Op
pub mod ReadOp
pub mod WriteOp
pub mod Prepare
