-- ===== src/Setup.antt =====
-- request.c and request_cleanup.c: the set-up of a request, its clean-up, and the memory in between.
pub mod CleanUp
pub mod Delimiter
pub mod Heap
pub mod PrepareWrite
pub mod ReadPart
pub mod Request
pub mod WritePart
