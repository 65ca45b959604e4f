-- ===== src/Rzip.antt =====
-- rzip.c: the long-range match search and the token streams that it writes.
pub mod Output
pub mod Tokens
pub mod Match
pub mod Table
pub mod Tag
pub mod Probe
pub mod Search
pub mod Width
