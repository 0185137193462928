-- ===== src/Module.antt =====
-- module.c: the locks on what libcurl's handles share, and the module's activation.
pub mod Activate
pub mod Locks
pub mod Share
