-- ===== src/Runzip/Chunk.antt =====
-- runzip.c: `unzip_literal`, `unzip_match` and the token loop of `runzip_chunk`, on the path that
-- writes to a file. `none` is a return of -1.
pub mod Replay
use lrzip.Common.{
  ℕ, zero, suc, ◌+◌, ◌-◌, ◌≤◌, ◌<◌, min, List, [], ◌∷◌, ◌++◌, length, take, drop, ltb, leb, ◌==◌,
  if◌then◌else◌, Bool, true, false, ◌&&◌, ◌||◌, Option, none, some, ◌>>=◌, ◌>>◌, require, not,
}
use lrzip.Stream.Read.{InStream, remaining, read_stream}
use lrzip.Runzip.Window.{Window, available, s0_vchars, read_header}
use lrzip.Runzip.Expand.{match_expand}

-- What `runzip_chunk` changes: the window on stream 0, stream 1, the output file up to `out_pos`,
-- the bytes that `match_cksum` has been given, and `total`.
pub record Reader : Type 0 where
  pub control : Window
  pub literal : InStream
  pub out : List ℕ
  pub summed : List ℕ
  pub total : ℕ

abbrev pub max_token_len : ℕ
max_token_len = 0xffff

abbrev pub filter_none : ℕ
filter_none = 0

-- `chunk_filter` and `chunk_bytes` are the chunk's, `lb` is `control->chunk_bytes`.
module _ (chunk_filter chunk_bytes lb : ℕ) where
  -- A filtered chunk is summed when it is unfiltered.
  pub match_cksum : List ℕ → List ℕ → List ℕ
  match_cksum summed b = if chunk_filter == filter_none then summed ++ b else summed

  -- `write_all`, `match_cksum`, `*out_pos += n`, and `total += u` of the caller.
  pub write_out : Reader → List ℕ → Reader
  write_out r b = record r {
    out = r.out ++ b;
    summed = match_cksum r.summed b;
    total = r.total + length b;
  }

  pub unzip_literal : Reader → ℕ → Option Reader
  unzip_literal r len = if len == 0 then some r else do
    require (leb len max_token_len)
    let b = read_stream r.literal len
    require (length (b.0) == len)
    some (write_out (record r { literal = b.1 }) (b.0))

  -- `read_fdhist` after `seekto_fdhist`: `n` bytes of the output from `pos` on.
  pub read_fdhist : List ℕ → ℕ → ℕ → Option (List ℕ)
  read_fdhist out pos n = let b = take n (drop pos out) in if length b == n then some b else none

  -- An offset of eight bytes at 2 ^ 63 or above is negative in the source and fails `offset < 1`;
  -- here it fails `offset > cur_pos`.
  pub unzip_match : Reader → ℕ → Option Reader
  unzip_match r len = do
    require (leb len max_token_len)
    v ← s0_vchars r.control chunk_bytes
    require (leb 1 (v.0) && leb (v.0) (length r.out))
    require (leb 1 (min len (v.0)))
    first ← read_fdhist r.out (length r.out - v.0) (min len (v.0))
    some (write_out (record r { control = v.1 }) (match_expand first (v.0) len))

  -- The `switch (head)`: 0 is a literal, any other head a match.
  pub unzip_token : Reader → ℕ → ℕ → Option Reader
  unzip_token r head len = if head == 0 then unzip_literal r len else unzip_match r len

  -- `while ((len = read_header(…)) || head)`.
  pub unzip_loop : ℕ → Reader → Option Reader
  unzip_loop zero r = none
  unzip_loop (suc fuel) r = read_header lb r.control >>= λ h.
      let r' = record r { control = h.2 } in
      let next = unzip_token r' (h.0) (h.1) >>= unzip_loop fuel in
      if (h.1 == 0) && (h.0 == 0) then some r' else next

  -- Each token takes a control byte at least.
  pub unzip_tokens : Reader → Option Reader
  unzip_tokens r = unzip_loop (suc (length (available r.control))) r
