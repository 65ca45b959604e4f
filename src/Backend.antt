-- ===== src/Backend.antt =====
-- stream.c, the back ends: what compresses a block of a stream and what decompresses it.
pub mod Types
pub mod Filter
pub mod Lz4
pub mod Codecs
pub mod Lzma
pub mod Uncomp
pub mod Packed
pub mod Restore
pub mod Shared
pub mod Thread
pub mod Tests
