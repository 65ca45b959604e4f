-- ===== src/Header.antt =====
-- The headers of an archive: lrzip.c's magic header, and stream.c's header of a streamed block.
pub mod Kdf
pub mod Magic
pub mod Lrzc
pub mod Tests
