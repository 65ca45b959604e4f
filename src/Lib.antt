-- ===== src/Lib.antt =====
-- lrzip, the compressor: rzip.c finds long repeats in a chunk of the input and writes it as tokens,
-- stream.c buffers the tokens' two streams into blocks for the back ends, and runzip.c reads the
-- tokens back and rebuilds the chunk.
--
-- Common: shared lists, byte strings, tests and the laws of `bit_xor`. `slice buf i n` is a run of a mapped buffer.
-- Stream/Write, Stream/Read: `write_stream`, `close_stream_out` and `read_stream` of stream.c. The
--   blocks stand for what the compression threads are given and the decompression threads deliver.
-- Backend: what a thread of stream.c does to a block. Types: the block, what the threads share, and
--   the libraries as parameters. Filter: the prefilters of filters.c and their trial. Lz4, Codecs,
--   Lzma, Uncomp: `lz4_compresses` and the functions around each library. Packed, Restore, Shared:
--   what their results have in common. Thread: `compthread` up to its turn.
-- Chain: the headers of a chunk and its blocks in the archive. The module itself is `compthread` in
--   its turn, Layout what the result looks like, Reader `fill_buffer`, and Open `open_stream_in`.
-- Archive: a chunk's buffers through Backend and Chain, and back. Its child Whole adds rzip.c's search
--   before and runzip.c's token loop behind.
-- Turns: `clear_buffer` and the turns of the compression threads, as steps on what they share, with
--   the threads that fail and pass their turn on without a block.
-- Rzip/Tokens: the token language that both programs share, independent of either.
-- Rzip/Output: `s0_write`, `put_match`, `put_literal` and `write_sbstream` of rzip.c. Its children
--   Control and Emit say what they add to the streams.
-- Rzip/Table, Rzip/Tag: the hash table and the rolling tag of rzip.c.
-- Rzip/Match, Rzip/Probe: `match_len_linear` and `find_best_match` of rzip.c.
-- Rzip/Search: `hash_search` of rzip.c on a chunk that is mapped whole. Its children Step, Ends,
--   Covers and Digest are about one round, the end of the loop, the tokens, and the bytes for MD5.
-- Rzip/Width: the byte width of a chunk's offsets, of `rzip_fd`.
-- Runzip/Window, Runzip/Expand, Runzip/Chunk: `s0_need`, `read_header`, `match_expand`,
--   `unzip_literal`, `unzip_match` and the token loop of runzip.c, on the path that writes to a file.
-- Header/Kdf, Header/Magic, Header/Lrzc: lrzip.c's `nloops` and `enc_loops`, the archive's header
--   (`write_magic`, `get_magic`, `read_magic`), and stream.c's header of a streamed block.
-- Crypto/Derive, Crypto/Setup, Crypto/Aead: `hmac_sha512`, `pbkdf2_sha512`, `hkdf_expand_sha512`,
--   `lrz_aead_kdf_setup`, `lrz_aead_seal` and `lrz_aead_open` of util.c; SHA-512 and AES-GCM are
--   parameters, with what is used of them as hypotheses. Crypto/Derive/Rfc has the definitions of
--   RFC 2104 and RFC 8018, apart from the code.
-- Memory: `setup_overhead`, `setup_ram` and the rounding to pages of util.c.
-- RoundTrip: a chunk through both programs.
--
-- Numbers are natural numbers; a signed quantity of the source that the code keeps at 0 or above is
-- one, and a subtraction that could go below 0 is guarded as in the source. Loops run on fuel. The
-- token loops have a round for each byte, which moves them on; `search_loop` has
-- `(end + 1) * (end + 1)` rounds, since a match may set the position back but never behind the last
-- match; the width loop has 55 rounds, for chunks below 2 ^ 63 bytes. The test of lz4 has nine passes,
-- each twice as long as the one before; the attempts of LZMA are thirteen more than the level, for
-- twelve halvings of a 32-bit dictionary size; a chain of blocks has a header for each byte at most,
-- since its links move forward.
--
-- The compression threads are modelled twice: Thread runs them one after the other on what they
-- share, as their accesses under `control_lock` let them, and Turns has every order of their steps
-- but leaves out what they do to the bytes. A library is given its input and the room for its output;
-- that it restores what it compressed is a hypothesis.
--
-- Not modelled: progress reports, the sliding buffer, encrypted headers of blocks, the formats before
-- 0.6, the sizes that `open_stream_out` chooses, the reader's ring of threads, `runzip_fd`, the legacy
-- encryption, filters of whole chunks, the front end and the file driver. The converters and codecs
-- are libraries.
pub mod Archive
pub mod Backend
pub mod Chain
pub mod Common
pub mod Stream
pub mod Rzip
pub mod Runzip
pub mod Header
pub mod Crypto
pub mod Memory
pub mod RoundTrip
pub mod Turns
pub mod Tests
