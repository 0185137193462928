-- ===== src/Write/Multipart/Laws.antt =====
-- write_multipart.c meets the contract of a write callback if its parts do: the body that it sends
-- is that of RFC 2046.
pub mod EndPart
pub mod Round
pub mod Loop
