-- ===== src/Tests.antt =====
-- The theorems at concrete inputs, and runs of the models.
mod GridftpTests
mod HandleTests
mod CallbackTests
mod HeaderTests
mod ModuleTests
mod MultipartTests
mod SetupTests
mod TransferTests
mod UriTests
mod WriteTests
