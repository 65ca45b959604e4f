-- ===== src/Chain/Reader.antt =====
-- stream.c, `fill_buffer`: the next header of a stream, what is refused, and the blocks that a
-- stream's headers lead to.
pub mod Follows
pub mod Order
pub mod Checks
use lrzip.Common.{
  ℕ, zero, suc, ◌+◌, ◌*◌, ◌^◌, Bool, true, false, not, ◌&&◌, ◌||◌, Option, none, some, List, [],
  ◌∷◌, length, get_or, take, drop, max, ltb, leb, ◌==◌, if◌then◌else◌, ◌>>=◌,
}
use lrzip.Common.Bytes.{from_le}
use lrzip.Backend.Types.{UncompThread, ctype_none, ctype_bzip2, ctype_lzma_delta4}

-- The fields of `struct rzip_control` and `struct stream_info` that bound what is read.
pub record Limits : Type 0 where
  pub chunk_bytes : ℕ
  pub initial_pos : ℕ
  pub payload_end : ℕ
  pub infile_size : ℕ
  pub maxram : ℕ

pub record BlockHeader : Type 0 where
  pub c_type : ℕ
  pub c_len : ℕ
  pub u_len : ℕ
  pub last_head : ℕ

-- `read_u8` and three times `read_val`, from the position `pos` behind `initial_pos`.
unfoldable pub read_block_header : ℕ → List ℕ → ℕ → Option BlockHeader
read_block_header w body pos =
    let h = drop pos body in
    if ltb (length h) (1 + w * 3)
    then none
    else some (record {
      c_type = get_or h 0 0;
      c_len = from_le (take w (drop 1 h));
      u_len = from_le (take w (drop (1 + w) h));
      last_head = from_le (take w (drop (1 + w + w) h));
    })

-- A number of 64 bits that is not negative.
abbrev pub nonnegative : ℕ → Bool
nonnegative n = ltb n (2 ^ 63)

-- `lrzip_size_ok`
unfoldable pub size_ok : ℕ → ℕ → Bool
size_ok n maxram = leb 1 n && nonnegative n && (maxram == 0 || leb n maxram)

-- "empty match block at the end of incompressible data"
unfoldable pub is_empty_block : ℕ → BlockHeader → Bool
is_empty_block streamno h = h.c_len == 0 && h.u_len == 0 && streamno == 1 && h.last_head == 0

-- A position is inside what it is relative to, where that is known.
abbrev pub inside : ℕ → ℕ → Bool
inside pos end = end == 0 || ltb pos end

-- The checks on a header at `pos`, with `total_read` bytes read.
unfoldable pub header_ok : Limits → ℕ → ℕ → BlockHeader → Bool
header_ok l pos total_read h =
    (leb 1 h.c_len && nonnegative h.c_len && leb 1 h.u_len && nonnegative h.u_len)
    && (h.last_head == 0
        || (nonnegative h.last_head
            && ltb pos h.last_head
            && inside (l.initial_pos + h.last_head) l.payload_end
            && inside (l.initial_pos + h.last_head) l.infile_size))
    && (leb ctype_none h.c_type && leb h.c_type ctype_lzma_delta4)
    && (not (h.c_type == ctype_none) || h.c_len == h.u_len)
    && (size_ok h.c_len l.maxram && size_ok h.u_len l.maxram)
    && (not (h.c_type == ctype_bzip2) || (ltb h.u_len (2 ^ 32) && ltb h.c_len (2 ^ 32)))
    && (l.payload_end == 0 || leb (l.initial_pos + total_read + h.c_len) l.payload_end)
    && size_ok (max h.u_len h.c_len) l.maxram

-- What a header leads to: no block, or a block to decompress and the stream's next header.
pub data Fill : Type 0 where
  skip_empty : Fill
  start : (u : UncompThread) (last_head total_read : ℕ) → Fill

-- The bytes behind the header, or a short read.
abbrev pub read_block : ℕ → List ℕ → ℕ → ℕ → BlockHeader → Option Fill
read_block w body pos total_read h =
    let bytes = drop (pos + (1 + w * 3)) body in
    if ltb (length bytes) h.c_len
    then none
    else some (
        start
          (record {
            s_buf = take h.c_len bytes;
            c_len = h.c_len;
            u_len = h.u_len;
            c_type = h.c_type;
          })
          h.last_head (total_read + h.c_len))

abbrev pub check_header : Limits → List ℕ → ℕ → ℕ → ℕ → BlockHeader → Option Fill
check_header l body streamno pos total_read h =
    if is_empty_block streamno h
    then some skip_empty
    else if header_ok l pos total_read h
    then read_block l.chunk_bytes body pos total_read h
    else none

-- From the label `fill_another` to the start of a thread.
unfoldable pub fill_another : Limits → List ℕ → ℕ → ℕ → ℕ → Option Fill
fill_another l body streamno pos total_read = read_block_header l.chunk_bytes body pos >>= λ h.
    check_header l body streamno pos (total_read + (1 + l.chunk_bytes * 3)) h

-- The blocks that a stream's headers lead to, in order; the last one has no next header.
abbrev pub follow : (ℕ → ℕ → Option (List UncompThread)) → Fill → Option (List UncompThread)
follow rest skip_empty = some []
follow rest (start u last_head total_read) =
    let us = rest last_head total_read >>= λ us. some (u ∷ us) in
    if last_head == 0 then some (u ∷ []) else us

unfoldable pub read_chain : ℕ → Limits → List ℕ → ℕ → ℕ → ℕ → Option (List UncompThread)
read_chain zero l body streamno pos total_read = none
read_chain (suc fuel) l body streamno pos total_read =
    fill_another l body streamno pos total_read >>= follow (read_chain fuel l body streamno)
