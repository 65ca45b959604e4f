-- ===== src/Rzip/Output.antt =====
-- rzip.c, the token writer: the batched control stream 0, the literal stream 1, and the tokens.
pub mod Control
pub mod Emit
use lrzip.Common.{
  ℕ, zero, suc, ◌+◌, ◌-◌, min, List, [], ◌∷◌, ◌++◌, length, take, drop, ◌==◌, ltb, if◌then◌else◌,
}
use lrzip.Common.Slice.{slice}
use lrzip.Common.Bytes.{le_bytes}
use lrzip.Stream.Write.{OutStream, flush_if_full, write_stream}

abbrev pub rzip_s0_bufsize : ℕ
rzip_s0_bufsize = 4096

abbrev pub max_token_len : ℕ
max_token_len = 0xffff

-- `stats` of `struct rzip_state`.
pub record Stats : Type 0 where
  pub inserts : ℕ
  pub literals : ℕ
  pub literal_bytes : ℕ
  pub matches : ℕ
  pub match_bytes : ℕ
  pub tag_hits : ℕ
  pub tag_misses : ℕ

-- The part of `struct rzip_state` that the writer changes: the batch `s0_buf[0..s0_len)` of
-- control bytes, the two streams behind `ss`, and the statistics.
pub record Output : Type 0 where
  pub s0_buf : List ℕ
  pub control : OutStream
  pub literal : OutStream
  pub stats : Stats

-- `bufsize` is that of `struct stream_info`, `chunk_bytes` that of `struct rzip_state`, and `buf`
-- the chunk that `do_mcpy` copies from.
module _ (bufsize chunk_bytes : ℕ) (buf : ℕ → ℕ) where
  unfoldable pub s0_flush : Output → Output
  s0_flush o =
      if length o.s0_buf == 0
      then o
      else record o { s0_buf = []; control = write_stream bufsize o.control o.s0_buf }

  -- One round of `s0_write`: the `n` bytes that fit, and a flush if that fills the batch.
  unfoldable pub s0_write_round : Output → List ℕ → Output
  s0_write_round o p =
      let filled = o.s0_buf ++ take (min (rzip_s0_bufsize - length o.s0_buf) (length p)) p in
      let o' = record o { s0_buf = filled } in
      if length filled == rzip_s0_bufsize then s0_flush o' else o'

  unfoldable pub s0_write_loop : ℕ → Output → List ℕ → Output
  s0_write_loop fuel o [] = o
  s0_write_loop zero o (x ∷ p) = o
  s0_write_loop (suc fuel) o (x ∷ p) =
      s0_write_loop fuel (s0_write_round o (x ∷ p))
        (drop (min (rzip_s0_bufsize - length o.s0_buf) (length (x ∷ p))) (x ∷ p))

  unfoldable pub s0_write : Output → List ℕ → Output
  s0_write o p = s0_write_loop (length p) o p

  unfoldable pub put_u8 : Output → ℕ → Output
  put_u8 o b = s0_write o (b ∷ [])

  unfoldable pub put_vchars : Output → ℕ → ℕ → Output
  put_vchars o s n = s0_write o (le_bytes n s)

  unfoldable pub put_header : Output → ℕ → ℕ → Output
  put_header o head len = put_vchars (put_u8 o head) len 2

  pub count_match : Output → ℕ → Output
  count_match o n = record o {
    stats = record (o.stats) {
      matches = o.stats.matches + 1;
      match_bytes = o.stats.match_bytes + n;
    };
  }

  -- One token of `put_match`: the header, the distance, the statistics.
  pub put_copy : Output → ℕ → ℕ → Output
  put_copy o ofs n = count_match (put_vchars (put_header o 1 n) ofs chunk_bytes) n

  -- The `do … while (len)` of `put_match`; every round but the last takes 0xffff bytes.
  pub put_match_loop : ℕ → Output → ℕ → ℕ → ℕ → Output
  put_match_loop zero o p offset len = o
  put_match_loop (suc fuel) o p offset len =
      let n = min max_token_len len in
      let o' = put_copy o (p - offset) n in
      let rest = put_match_loop fuel o' (p + n) (offset + n) (len - n) in
      if len - n == 0 then o' else rest

  pub put_match : Output → ℕ → ℕ → ℕ → Output
  put_match o p offset len = put_match_loop (suc len) o p offset len

  -- `write_sbstream`: the loop of `write_stream`, fed by `do_mcpy` from position `p` of the chunk.
  unfoldable pub write_sb_loop : ℕ → OutStream → ℕ → ℕ → OutStream
  write_sb_loop fuel s p zero = s
  write_sb_loop zero s p (suc len) = s
  write_sb_loop (suc fuel) s p (suc len) =
      let n = min (bufsize - length s.buf) (suc len) in
      write_sb_loop fuel (flush_if_full bufsize (record s { buf = s.buf ++ slice buf p n })) (p + n)
        (suc len - n)

  unfoldable pub write_sbstream : OutStream → ℕ → ℕ → OutStream
  write_sbstream s p len = write_sb_loop len s p len

  unfoldable pub count_literal : Output → ℕ → Output
  count_literal o n = record o {
    stats = record (o.stats) {
      literals = o.stats.literals + 1;
      literal_bytes = o.stats.literal_bytes + n;
    };
  }

  -- `if (len) write_sbstream(control, st->ss, 1, last, len)`.
  unfoldable pub put_literal_bytes : Output → ℕ → ℕ → Output
  put_literal_bytes o last len =
      if len == 0 then o else record o { literal = write_sbstream o.literal last len }

  -- One token of `put_literal`: the statistics, the header, the bytes.
  unfoldable pub put_run : Output → ℕ → ℕ → Output
  put_run o last n = put_literal_bytes (put_header (count_literal o n) 0 n) last n

  -- The `do … while (p > last)` of `put_literal`.
  unfoldable pub put_literal_loop : ℕ → Output → ℕ → ℕ → Output
  put_literal_loop zero o last p = o
  put_literal_loop (suc fuel) o last p =
      let n = min max_token_len (p - last) in
      let o' = put_run o last n in
      let rest = put_literal_loop fuel o' (last + n) p in if ltb (last + n) p then rest else o'

  unfoldable pub put_literal : Output → ℕ → ℕ → Output
  put_literal o last p = put_literal_loop (suc (p - last)) o last p
