-- ===== src/Chain.antt =====
-- stream.c, `compthread` in its turn: how a chunk's blocks are written to the archive, each stream's
-- blocks linked by the positions of their headers.
pub mod Layout
pub mod Writes
pub mod Reader
pub mod Open
pub mod RoundTrip
pub mod Tests
use lrzip.Common.{
  ℕ, ◌+◌, ◌*◌, ◌%◌, ◌^◌, List, [], ◌∷◌, ◌++◌, length, take, drop, ◌==◌, if◌then◌else◌,
}
use lrzip.Common.Bytes.{le_bytes}
use lrzip.Backend.Types.{CompressThread, ctype_none}

-- `struct stream_info` while a chunk is written without encryption: the bytes behind `initial_pos`,
-- the position behind the last block, and `last_head` of each stream.
pub record Sinfo : Type 0 where
  pub body : List ℕ
  pub cur_pos : ℕ
  pub last_head : ℕ → ℕ

-- `write_val` after `seekto`: the bytes at `pos` are replaced.
unfoldable pub write_at : List ℕ → ℕ → List ℕ → List ℕ
write_at body pos bytes = take pos body ++ (bytes ++ drop (pos + length bytes) body)

-- A block's header; the last field is its stream's next header, none so far.
unfoldable pub block_header : ℕ → ℕ → ℕ → ℕ → ℕ → List ℕ
block_header write_len c_type c_len s_len last_head =
    c_type
    ∷ (le_bytes write_len c_len ++ (le_bytes write_len s_len ++ le_bytes write_len last_head))

abbrev pub update : (ℕ → ℕ) → ℕ → ℕ → ℕ → ℕ
update f j v k = if k == j then v else f k

-- The chunk's own header: its width, filter, whether it is the last, and its size.
unfoldable pub write_chunk_header : ℕ → ℕ → ℕ → ℕ → List ℕ
write_chunk_header chunk_bytes chunk_filter eof size =
    chunk_bytes ∷ chunk_filter ∷ eof ∷ le_bytes chunk_bytes size

-- The initial header of a stream, "First chunk of this stream, write headers".
unfoldable pub write_initial_header : ℕ → ℕ → Sinfo → Sinfo
write_initial_header write_len j s = record {
  body = s.body ++ block_header write_len ctype_none 0 0 0;
  cur_pos = s.cur_pos + (1 + write_len * 3);
  last_head = update s.last_head j (s.cur_pos + 1 + write_len * 2);
}

unfoldable pub start_chunk : ℕ → Sinfo
start_chunk write_len =
    write_initial_header write_len 1
      (write_initial_header write_len 0 (record { body = []; cur_pos = 0; last_head = λ j. 0 }))

-- A block of stream `streamno`: its position goes to where the stream's last header says, and the
-- header and the bytes go to the end.
unfoldable pub write_block : ℕ → ℕ → CompressThread → Sinfo → Sinfo
write_block write_len streamno cti s = record {
  body =
      write_at s.body (s.last_head streamno) (le_bytes write_len s.cur_pos)
      ++ (block_header write_len cti.c_type cti.c_len cti.s_len 0 ++ cti.s_buf);
  cur_pos = s.cur_pos + (1 + write_len * 3) + cti.c_len;
  last_head = update s.last_head streamno (s.cur_pos + 1 + write_len * 2);
}

-- The blocks in the order in which the threads take their turns.
unfoldable pub write_blocks : ℕ → List (ℕ × CompressThread) → Sinfo → Sinfo
write_blocks write_len [] s = s
write_blocks write_len ((j, cti) ∷ bs) s = write_blocks write_len bs (write_block write_len j cti s)
