-- ===== src/Stream.antt =====
-- stream.c: the buffered streams between the rzip stage and the back ends.
pub mod Write
pub mod Read
