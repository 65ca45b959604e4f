-- ===== src/Tests.antt =====
-- Concrete runs: each theorem with hypotheses, at an input where they hold.
use lrzip.Common.{
  ℕ, ◌+◌, ◌^◌, ◌≤◌, ◌<◌, min, ◌≡◌, ◌≢◌, refl, arith, List, [], ◌∷◌, ◌++◌, take, drop, concat, true,
  false, some, All, length, ap,
}
use lrzip.Common.Slice.{slice}
use lrzip.Common.Bytes.{le_bytes}
use lrzip.Stream.Write.{
  empty_stream, contents, IsOpen, write_stream, contents-write_stream, close_stream_out, write_loop,
  write_round, flush_if_full, flush_buffer,
}
use lrzip.Stream.Read.{InStream, remaining, open_stream, read_stream, read_stream_lem, filled}
use lrzip.Rzip.Output.{
  put_match, put_literal, write_sbstream, s0_flush, put_literal_loop, put_run, put_literal_bytes,
  put_header, put_vchars, s0_write, s0_write_loop, put_u8, count_literal, s0_write_round,
  write_sb_loop,
}
use lrzip.Rzip.Output.Control.{IsReady, write_sbstream-write_stream}
use lrzip.Rzip.Output.Emit.{Emits, put_match-Emits, put_literal-Emits}
use lrzip.Rzip.Tokens.{literal, copy, IsCopy}
use lrzip.Rzip.Match.{
  minimum_match, match_len, forward, forward_words, forward_bytes, same_bytes, backward,
}
use lrzip.Rzip.Match.Bounds.{IsMatch, match_len-IsMatch}
use lrzip.Rzip.Table.{Table, Level}
use lrzip.Rzip.Tag.{full_tag, next_tag}
use lrzip.Rzip.Tag.Rolling.{next_tag-full_tag}
use lrzip.Rzip.Width.{chunk_width, chunk_width-fits}
use lrzip.Rzip.Probe.{Found, find_best_match, find_best_match-Found}
use lrzip.Rzip.Search.{searched, hash_search, finish_output, put_tail, search_loop, start}
use lrzip.Rzip.Search.Digest.{hash_search-md5}
use lrzip.Rzip.Search.Covers.{Covers, searched_ends, hash_search-Covers}
use lrzip.Runzip.Window.{Window, available, IsWindow, fresh_window, read_header, read_header_lem}
use lrzip.Runzip.Expand.{match_expand, match_expand-slice}
use lrzip.Runzip.Chunk.{Reader, unzip_tokens}
use lrzip.Runzip.Chunk.Replay.{IsAt, unzip_tokens-IsAt}
use lrzip.RoundTrip.{Restores, fresh_output, rzip_chunk, open_chunk, rzip_chunk-unzip_tokens}

abbrev sevens : ℕ → ℕ
sevens i = 7

abbrev same_index : ℕ → ℕ
same_index i = i

abbrev level_zero : Level
level_zero = record { mb_used = 1; initial_freq = 4; max_chain_len = 1 }

abbrev two_slots : Table
two_slots = record {
  max_chain_len = 1;
  slots = record { t = 5; offset = 3 } ∷ record { t = 0; offset = 0 } ∷ [];
  hash_bits = 1;
  hash_wide = false;
  hash_count = 1;
  hash_limit = 1;
  minimum_tag_mask = 15;
  tag_clean_ptr = 0;
  victim_round = 0;
}

fresh_output-IsReady : IsReady 4 fresh_output
fresh_output-IsReady = record {
  batch = omega arith;
  control = record { room = omega arith; full = tt };
  literal = record { room = omega arith; full = tt };
}

abbrev four_bytes : List ℕ
four_bytes = 1 ∷ 2 ∷ 3 ∷ 4 ∷ []

-- The two blocks of the control stream have four bytes and two.
four_bytes-control :
    (rzip_chunk same_index 4 2 true level_zero 0 four_bytes).control.buf ≡ 0 ∷ 0 ∷ []
unfolding flush_buffer rzip_chunk hash_search finish_output s0_flush put_literal put_literal_loop
    put_run put_literal_bytes put_header put_vchars s0_write s0_write_loop put_u8 count_literal
    put_tail searched search_loop start s0_write_round write_stream write_loop write_round
    flush_if_full write_sbstream write_sb_loop le_bytes
four_bytes-control = refl

rzip_chunk-unzip_tokens_example :
    All
      (λ b. 0 < length b)
      (close_stream_out (rzip_chunk same_index 4 2 true level_zero 0 four_bytes).control)
    × (r : Reader) × (unzip_tokens 0 (chunk_width 4) 2 (
          open_chunk
            (close_stream_out (rzip_chunk same_index 4 2 true level_zero 0 four_bytes).control)
            (filled
              (close_stream_out (rzip_chunk same_index 4 2 true level_zero 0 four_bytes).literal))
            (9 ∷ []))
        ≡ some r)
    × Restores 0 four_bytes (9 ∷ []) r
rzip_chunk-unzip_tokens_example =
    rzip_chunk-unzip_tokens same_index 4 2 true level_zero 0 0 four_bytes (9 ∷ []) (omega arith)
      (omega arith) (omega (arith, ap length four_bytes-control))

hash_search-Covers_example :
    Covers sevens 100 1 4 fresh_output
      (hash_search same_index sevens 100 1 4 2 true level_zero 0 fresh_output).0
hash_search-Covers_example =
    hash_search-Covers same_index sevens 100 1 4 2 true fresh_output (omega arith) level_zero 0
      fresh_output-IsReady

searched_ends_example :
    100 ≤ (searched same_index sevens 100 1 4 2 true level_zero 0 fresh_output).p + minimum_match
searched_ends_example =
    searched_ends same_index sevens 100 1 4 2 true fresh_output (omega arith) level_zero 0
      fresh_output-IsReady

find_best_match-Found_example : Found sevens 0 40 80 (find_best_match sevens 0 40 80 two_slots 5)
find_best_match-Found_example =
    find_best_match-Found sevens 0 40 80 (omega arith) (omega arith) two_slots 5

is_match : (match_len sevens 0 1 0 40 0).0 ≢ 0
unfolding match_len forward forward_words forward_bytes same_bytes backward
is_match e = absurd (omega (arith, e))

match_len-IsMatch_example :
    IsMatch sevens 0 1 0 40 0 (match_len sevens 0 1 0 40 0).0 (match_len sevens 0 1 0 40 0).1
match_len-IsMatch_example = match_len-IsMatch sevens 0 1 0 40 0 (omega arith) (omega arith) is_match

sevens-IsCopy : IsCopy sevens 1 2 1 3
sevens-IsCopy = record {
  ofs_pos = omega arith;
  ofs_back = omega arith;
  ofs_fits = omega arith;
  same = λ k h. refl;
}

match_expand-slice_example : match_expand (slice sevens 2 (min 3 1)) 1 3 ≡ slice sevens 2 3
match_expand-slice_example = match_expand-slice sevens sevens-IsCopy

put_match-Emits_example :
    Emits 4 1 sevens fresh_output (put_match 4 1 sevens fresh_output 2 1 3) 2 (2 + 3)
put_match-Emits_example =
    put_match-Emits 4 1 sevens fresh_output 2 1 3 fresh_output-IsReady (omega arith) sevens-IsCopy

put_literal-Emits_example :
    Emits 4 1 sevens fresh_output (put_literal 4 1 sevens fresh_output 2 9) 2 9
put_literal-Emits_example =
    put_literal-Emits 4 1 sevens fresh_output 2 9 fresh_output-IsReady (omega arith)

write_sbstream-write_stream_example :
    write_sbstream 4 1 sevens empty_stream 2 9 ≡ write_stream 4 empty_stream (slice sevens 2 9)
write_sbstream-write_stream_example = write_sbstream-write_stream 4 1 sevens empty_stream 2 9

contents-write_stream_example :
    (contents (write_stream 3 empty_stream four_bytes) ≡ contents empty_stream ++ four_bytes)
    × IsOpen 3 (write_stream 3 empty_stream four_bytes)
contents-write_stream_example =
    contents-write_stream 3 empty_stream four_bytes (record { room = omega arith; full = tt })

abbrev two_blocks : InStream
two_blocks = open_stream (four_bytes ∷ (5 ∷ []) ∷ [])

read_stream_lem_example :
    ((read_stream two_blocks 3).0 ≡ take 3 (remaining two_blocks))
    × (remaining (read_stream two_blocks 3).1 ≡ drop 3 (remaining two_blocks))
read_stream_lem_example = read_stream_lem two_blocks 3

chunk_width-fits_example :
    (1000 < 256 ^ chunk_width 1000) × (1 ≤ chunk_width 1000) × (chunk_width 1000 ≤ 8)
chunk_width-fits_example = chunk_width-fits 1000 (omega arith)

-- A literal of two bytes, a copy of three, and the end marker.
abbrev control_run : List ℕ
control_run = 0 ∷ 2 ∷ 0 ∷ 1 ∷ 3 ∷ 0 ∷ 1 ∷ 0 ∷ 0 ∷ 0 ∷ []

abbrev run_window : Window
run_window = fresh_window (open_stream (control_run ∷ []))

run_window-IsWindow : IsWindow run_window
run_window-IsWindow = record { inside = omega arith; bounded = omega arith }

read_header_lem_example :
    (w' : Window) × (read_header 2 run_window ≡ some (0, 2, w'))
    × IsWindow w'
    × (available w' ≡ drop 3 control_run)
unfolding le_bytes
read_header_lem_example =
    read_header_lem 2 run_window 0 2 (drop 3 control_run) run_window-IsWindow refl (omega arith)
      (omega arith)

abbrev run_reader : Reader
run_reader = record {
  control = run_window;
  literal = open_stream ((7 ∷ 7 ∷ []) ∷ []);
  out = [];
  summed = [];
  total = 0;
}

unzip_tokens-IsAt_example :
    (r' : Reader) × (unzip_tokens 0 1 2 run_reader ≡ some r')
    × IsAt sevens 0 1 run_reader 5 [] [] r'
unfolding le_bytes
unzip_tokens-IsAt_example =
    unzip_tokens-IsAt sevens 0 1 run_reader (literal 2 ∷ copy 1 3 ∷ []) (omega arith)
      (omega arith, omega arith, tt, (omega arith, omega arith, sevens-IsCopy, tt))
      (record {
        window = run_window-IsWindow;
        control = refl;
        literal = refl;
        out = refl;
        summed = refl;
        total = refl;
      })

hash_search-md5_example :
    concat (hash_search same_index sevens 100 1 4 2 true level_zero 0 fresh_output).1
    ≡ slice sevens 0 100
hash_search-md5_example =
    hash_search-md5 same_index sevens 100 1 4 2 true (omega arith) level_zero 0 fresh_output

next_tag-full_tag_example :
    next_tag same_index sevens (4 + 1) (full_tag same_index sevens 4)
    ≡ full_tag same_index sevens (4 + 1)
next_tag-full_tag_example = next_tag-full_tag same_index sevens 4
