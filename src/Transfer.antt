-- ===== src/Transfer.antt =====
-- A request while libcurl performs it: the callbacks that libcurl calls, and perform.c.
pub mod ReadMultipart
pub mod Request
pub mod Upload
pub mod Body
pub mod Download
pub mod Progress
pub mod OldProgress
pub mod Json
pub mod Idle
pub mod Perform
pub mod Method
pub mod Retry
