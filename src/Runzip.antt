-- ===== src/Runzip.antt =====
-- runzip.c: the token streams read back into the chunk.
pub mod Window
pub mod Expand
pub mod Chunk
