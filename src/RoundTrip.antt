-- ===== src/RoundTrip.antt =====
-- A chunk through both directions: what `hash_search` and `write_stream` leave, `read_stream` and
-- `runzip_chunk` read.
use lrzip.Common.{
  ℕ, ◌^◌, ◌<◌, ◌≡◌, refl, sym, ap, ◌∙◌, arith, List, [], ◌∷◌, ◌++◌, length, get_or, append-nil,
  concat, All, Bool, ◌==◌, if◌then◌else◌, some,
}
use lrzip.Common.Slice.{slice, slice-get_or}
use lrzip.Common.Bytes.{le_bytes}
use lrzip.Stream.Write.{
  empty_stream, contents, close_stream_out, concat-close_stream_out, All-close_stream_out,
}
use lrzip.Stream.Read.{remaining, open_stream, filled, concat-filled}
use lrzip.Rzip.Tokens.{controls, literals}
use lrzip.Rzip.Output.{Output, Stats}
use lrzip.Rzip.Table.{Level}
use lrzip.Rzip.Width.{chunk_width, chunk_width-fits}
use lrzip.Rzip.Search.{hash_search}
use lrzip.Rzip.Search.Covers.{Covers, hash_search-Covers}
use lrzip.Runzip.Window.{available, fresh_window}
use lrzip.Runzip.Chunk.{Reader, filter_none, unzip_tokens}
use lrzip.Runzip.Chunk.Replay.{IsAt, unzip_tokens-IsAt}

abbrev no_stats : Stats
no_stats = record {
  inserts = 0;
  literals = 0;
  literal_bytes = 0;
  matches = 0;
  match_bytes = 0;
  tag_hits = 0;
  tag_misses = 0;
}

-- `open_stream_out` of a chunk's two streams.
abbrev pub fresh_output : Output
fresh_output = record {
  s0_buf = [];
  control = empty_stream;
  literal = empty_stream;
  stats = no_stats;
}

abbrev pub bytes_of : List ℕ → ℕ → ℕ
bytes_of chunk i = get_or chunk i 0

-- A chunk's two streams after `hash_search`.
unfoldable pub rzip_chunk : (ℕ → ℕ) → ℕ → ℕ → Bool → Level → ℕ → List ℕ → Output
rzip_chunk hash_index bufsize capacity feed level victim_round chunk =
    (hash_search hash_index (bytes_of chunk) (length chunk) (chunk_width (length chunk)) bufsize
      capacity feed level victim_round fresh_output).0

-- The reader of a chunk, opened on the blocks of the two streams, with `out` written before it.
unfoldable pub open_chunk : List (List ℕ) → List (List ℕ) → List ℕ → Reader
open_chunk control_blocks literal_blocks out = record {
  control = fresh_window (open_stream control_blocks);
  literal = open_stream literal_blocks;
  out = out;
  summed = [];
  total = 0;
}

-- What `runzip_chunk` has at its end: the chunk behind the output, counted and summed, and nothing
-- left in either stream.
pub record Restores (chunk_filter : ℕ) (chunk before : List ℕ) (r : Reader) : Type 0 where
  pub out : r.out ≡ before ++ chunk
  pub total : r.total ≡ length chunk
  pub summed : r.summed ≡ (if chunk_filter == filter_none then chunk else [])
  pub control_used : available r.control ≡ []
  pub literal_used : remaining r.literal ≡ []

module _ (chunk_filter bufsize : ℕ) (chunk before : List ℕ) (small : length chunk < 2 ^ 63) where
  width : ℕ
  width = chunk_width (length chunk)

  both_nil : (b : Bool) → ◌≡◌ {A = List ℕ} (if b then [] else []) []
  both_nil b = ground arith

  -- The blocks may be cut in any way.
  opened-IsAt :
      {o : Output} (c : Covers (bytes_of chunk) (length chunk) width bufsize fresh_output o)
      (cb lb : List (List ℕ))
      → concat cb ≡ contents o.control
      → concat lb ≡ contents o.literal
      → IsAt
          (bytes_of chunk)
          chunk_filter
          width
          (open_chunk cb lb before)
          0
          (controls width c.tokens ++ ((0 ∷ le_bytes 2 0) ++ []))
          (literals (bytes_of chunk) 0 c.tokens ++ [])
          (open_chunk cb lb before)
  unfolding open_chunk
  opened-IsAt {o} c cb lb ec el = record {
    window = record { inside = omega arith; bounded = omega arith };
    control =
        ec
        ∙ sym (append-nil (contents o.control))
        ∙ ap (λ t. contents o.control ++ t) (sym c.flushed)
        ∙ c.written.controls
        ∙ ap (λ t. controls width c.tokens ++ t) (sym (append-nil (0 ∷ le_bytes 2 0)));
    literal = el ∙ c.written.literals ∙ sym (append-nil _);
    out = sym (append-nil _);
    summed = sym (both_nil (chunk_filter == filter_none));
    total = refl;
  }

  sliced : (n : ℕ) → n ≡ length chunk → slice (bytes_of chunk) 0 n ≡ chunk
  sliced n e = rw e (slice-get_or chunk 0)

  pub restored :
      {o : Output}
      → Covers (bytes_of chunk) (length chunk) (chunk_width (length chunk)) bufsize fresh_output o
      → (cb lb : List (List ℕ)) → concat cb ≡ contents o.control
      → concat lb ≡ contents o.literal
      → (r : Reader) × (unzip_tokens chunk_filter
            (chunk_width (length chunk))
            2
            (open_chunk cb lb before)
          ≡ some r)
        × Restores chunk_filter chunk before r
  unfolding width open_chunk
  restored {o} c cb lb ec el =
      let (r, e, at) =
        unzip_tokens-IsAt (bytes_of chunk) chunk_filter width (open_chunk cb lb before) c.tokens
          ((chunk_width-fits (length chunk) small).2) c.valid (opened-IsAt c cb lb ec el) in
      (
        r,
        e,
        record {
          out = at.out ∙ ap (λ t. before ++ t) (sliced _ c.complete);
          total = omega (arith, at.total, c.complete);
          summed = rw (sliced _ c.complete) at at.summed;
          control_used = at.control;
          literal_used = at.literal;
        },
      )

pub rzip_chunk-Covers :
    (hash_index : ℕ → ℕ) (bufsize capacity : ℕ) (feed : Bool) (level : Level) (victim_round : ℕ)
    (chunk : List ℕ)
    → 0 < bufsize
    → length chunk < 2 ^ 63
    → Covers
        (bytes_of chunk)
        (length chunk)
        (chunk_width (length chunk))
        bufsize
        fresh_output
        (rzip_chunk hash_index bufsize capacity feed level victim_round chunk)
unfolding rzip_chunk
rzip_chunk-Covers hash_index bufsize capacity feed level victim_round chunk pos small =
    hash_search-Covers hash_index (bytes_of chunk) (length chunk) (chunk_width (length chunk))
      bufsize capacity feed fresh_output ((chunk_width-fits (length chunk) small).0) level
      victim_round
      (record {
        batch = omega arith;
        control = record { room = pos; full = tt };
        literal = record { room = pos; full = tt };
      })

-- A chunk shorter than 2 ^ 63 bytes comes back byte for byte, for every level, victim counter,
-- hash index, MD5 setting, chunk filter, positive buffer size and earlier output, where the last
-- buffer of the control stream is not empty: none of the control stream's buffers is empty then,
-- and on them and the literal stream's buffers, less an empty one, the token loop of
-- `runzip_chunk` returns; its output is the earlier one and the chunk, its count the chunk's
-- length, the bytes summed are the chunk unless it is filtered, and nothing is left in either
-- stream.
pub rzip_chunk-unzip_tokens :
    (hash_index : ℕ → ℕ) (bufsize capacity : ℕ) (feed : Bool) (level : Level) (victim_round : ℕ)
    (chunk_filter : ℕ) (chunk before : List ℕ)
    → 0 < bufsize
    → length chunk < 2 ^ 63
    → 0 < length (rzip_chunk hash_index bufsize capacity feed level victim_round chunk).control.buf
    → All
        (λ b. 0 < length b)
        (close_stream_out
          (rzip_chunk hash_index bufsize capacity feed level victim_round chunk).control)
      × (r : Reader) × (unzip_tokens chunk_filter (chunk_width (length chunk)) 2 (
            open_chunk
              (close_stream_out
                (rzip_chunk hash_index bufsize capacity feed level victim_round chunk).control)
              (filled (
                close_stream_out
                  (rzip_chunk hash_index bufsize capacity feed level victim_round chunk).literal))
              before)
          ≡ some r)
      × Restores chunk_filter chunk before r
rzip_chunk-unzip_tokens hash_index bufsize capacity feed level victim_round chunk_filter chunk
      before pos small last =
    let o = rzip_chunk hash_index bufsize capacity feed level victim_round chunk in
    let c = rzip_chunk-Covers hash_index bufsize capacity feed level victim_round chunk pos small in
    let (r, e, back) =
      restored chunk_filter bufsize chunk before small c _ _ (concat-close_stream_out _)
        (concat-filled (close_stream_out o.literal) ∙ concat-close_stream_out o.literal) in
    (All-close_stream_out bufsize c.written.ready.control last, r, e, back)
