-- ===== src/Chain/Open.antt =====
-- runzip.c and stream.c, `runzip_chunk` and `open_stream_in`: the chunk's header and the initial
-- headers of its two streams.
use lrzip.Common.{
  ℕ, zero, suc, ◌+◌, ◌-◌, ◌*◌, ◌^◌, ◌≤◌, ◌<◌, ◌≡◌, refl, arith, Bool, true, not, ◌&&◌, Option, none,
  some, List, [], ◌∷◌, ◌++◌, length, take, drop, ltb, leb, ◌==◌, if◌then◌else◌, ◌>>=◌, take-append,
  drop-append, length-append,
}
use lrzip.Common.Bytes.{le_bytes, from_le, length-le_bytes, from_le-le_bytes}
use lrzip.Backend.Types.{ctype_none, UncompThread}
use lrzip.Chain.{write_chunk_header}
use lrzip.Chain.Reader.{Limits, BlockHeader, read_block_header, read_chain}

-- `LRZ_CHUNK_FILTER_MAX`
abbrev pub chunk_filter_max : ℕ
chunk_filter_max = 2

pub record ChunkHeader : Type 0 where
  pub chunk_bytes : ℕ
  pub chunk_filter : ℕ
  pub eof : ℕ
  pub size : ℕ

-- The header of version 0.7 without encryption, and what is behind it.
unfoldable pub read_chunk_header : List ℕ → Option (ChunkHeader × List ℕ)
read_chunk_header (chunk_bytes ∷ chunk_filter ∷ eof ∷ rest) =
    let size = from_le (take chunk_bytes rest) in
    if leb 1 chunk_bytes
      && leb chunk_bytes 8
      && leb chunk_filter chunk_filter_max
      && not (ltb (length rest) chunk_bytes)
      && ltb size (2 ^ 63)
    then some (
      record { chunk_bytes = chunk_bytes; chunk_filter = chunk_filter; eof = eof; size = size },
      drop chunk_bytes rest,
    )
    else none
read_chunk_header other = none

-- "Unexpected initial tag", "c_len", "u_len"
abbrev pub initial_ok : BlockHeader → Bool
initial_ok h = h.c_type == ctype_none && h.c_len == 0 && h.u_len == 0

-- The first stream's header: one without a next header is passed over ("stream close workaround").
unfoldable pub open_first : ℕ → ℕ → List ℕ → Option (List ℕ × ℕ)
open_first zero w body = none
open_first (suc fuel) w body =
    let again = open_first fuel w (drop (1 + w * 3) body) in
    read_block_header w body 0 >>= λ h.
    if initial_ok h && h.last_head == 0
    then again
    else if initial_ok h
    then some (body, h.last_head)
    else none

-- The bytes behind `initial_pos`, and the positions of the streams' first blocks.
unfoldable pub open_stream_in : ℕ → List ℕ → Option (List ℕ × ℕ × ℕ)
open_stream_in w body = open_first (suc (length body)) w body >>= λ (b, head0).
    read_block_header w b (1 + w * 3) >>= λ h.
    if initial_ok h then some (b, head0, h.last_head) else none

-- The bytes of the headers and blocks of `us`.
abbrev pub bytes_read : ℕ → List UncompThread → ℕ
bytes_read w [] = 0
bytes_read w (u ∷ us) = 1 + w * 3 + u.c_len + bytes_read w us

-- The limits once `skipped` bytes of initial headers have been passed over.
abbrev pub moved : Limits → ℕ → Limits
moved l skipped = record l { initial_pos = l.initial_pos + skipped }

-- The blocks of both streams, stream 0's read first. Each link moves forward, so as many headers as
-- there are bytes are enough.
unfoldable pub read_streams : Limits → List ℕ → Option (List UncompThread × List UncompThread)
read_streams l body = open_stream_in l.chunk_bytes body >>= λ (b, head0, head1).
    let skipped = length body - length b in
    let heads = skipped + (1 + l.chunk_bytes * 3) * 2 in
    read_chain (length b) (moved l skipped) b 0 head0 heads >>= λ us.
    read_chain (length b) (moved l skipped) b 1 head1 (heads + bytes_read l.chunk_bytes us)
    >>= λ vs. some (us, vs)

-- What is written as the chunk's header is read back, for a valid width and filter and a size that
-- fits both.
pub write_chunk_header-read_chunk_header :
    (chunk_bytes chunk_filter eof size : ℕ) (rest : List ℕ)
    → 1 ≤ chunk_bytes
    → chunk_bytes ≤ 8
    → chunk_filter ≤ chunk_filter_max
    → size < 256 ^ chunk_bytes
    → size < 2 ^ 63
    → read_chunk_header (write_chunk_header chunk_bytes chunk_filter eof size ++ rest)
      ≡ some (
        record { chunk_bytes = chunk_bytes; chunk_filter = chunk_filter; eof = eof; size = size },
        rest,
      )
unfolding read_chunk_header write_chunk_header
write_chunk_header-read_chunk_header chunk_bytes chunk_filter eof size rest lo hi filter fits
      small =
    let n = length-le_bytes chunk_bytes size in
    let bytes : take chunk_bytes (le_bytes chunk_bytes size ++ rest) ≡ le_bytes chunk_bytes size =
      take-append chunk_bytes _ rest n in
    let behind : drop chunk_bytes (le_bytes chunk_bytes size ++ rest) ≡ rest =
      drop-append chunk_bytes _ rest n in
    let value = from_le-le_bytes chunk_bytes size fits in
    let ok : (leb 1 chunk_bytes
          && leb chunk_bytes 8
          && leb chunk_filter chunk_filter_max
          && not (ltb (length (le_bytes chunk_bytes size ++ rest)) chunk_bytes)
          && ltb size (2 ^ 63))
        ≡ true =
      ground (arith, n, length-append (le_bytes chunk_bytes size) rest) in
    rw (bytes, behind, value, ok) refl
