-- ===== src/Chain/Tests.antt =====
-- A small chunk with a block in each stream, and the theorems on it.
use lrzip.Common.{
  ℕ, ◌+◌, ◌≤◌, ◌≡◌, refl, arith, none, some, List, [], ◌∷◌, ◌++◌, length, drop, inl, inr,
}
use lrzip.Common.Bytes.{le_bytes, from_le}
use lrzip.Backend.Types.{CompressThread, UncompThread}
use lrzip.Chain.{
  write_at, block_header, write_initial_header, start_chunk, write_block, write_blocks,
}
use lrzip.Chain.Layout.{Tagged, block_bytes, layout}
use lrzip.Chain.Writes.{initials, write_blocks-layout}
use lrzip.Chain.Reader.{
  Limits, read_block_header, size_ok, is_empty_block, header_ok, start, fill_another, read_chain,
}
use lrzip.Chain.Reader.Follows.{blocks_of, Bounds, IsReadable}
use lrzip.Chain.Reader.Order.{delivered}
use lrzip.Chain.Reader.Checks.{
  IsChecked, fill_another-IsChecked, empty_block_refused, read_chain_fuel,
}
use lrzip.Chain.Open.{read_streams}
use lrzip.Chain.RoundTrip.{write_blocks-read_streams}

abbrev stored : List ℕ → CompressThread
stored b = record { s_buf = b; s_len = length b; c_type = 3; c_len = length b }

abbrev two_blocks : List Tagged
two_blocks = (0, stored (5 ∷ 6 ∷ [])) ∷ (1, stored (7 ∷ [])) ∷ []

abbrev two_bytes : List ℕ
two_bytes = 3 ∷ 0 ∷ 0 ∷ 8 ∷ 3 ∷ 0 ∷ 0 ∷ 14 ∷ 3 ∷ 2 ∷ 2 ∷ 0 ∷ 5 ∷ 6 ∷ 3 ∷ 1 ∷ 1 ∷ 0 ∷ 7 ∷ []

abbrev limits : Limits
limits = record {
  chunk_bytes = 1;
  initial_pos = 30;
  payload_end = 0;
  infile_size = 49;
  maxram = 100;
}

two_blocks_written : (write_blocks 1 two_blocks (start_chunk 1)).body ≡ two_bytes
unfolding write_blocks write_block start_chunk write_initial_header block_header write_at le_bytes
two_blocks_written = refl

two_bytes-Bounds : Bounds limits two_bytes
two_bytes-Bounds = record {
  payload = inl refl;
  infile = inr (omega arith);
  small = omega arith;
  width = omega arith;
}

stored-IsReadable : (b : List ℕ) → 1 ≤ length b → length b ≤ 100 → IsReadable limits (stored b)
stored-IsReadable b lo hi = record {
  c_len = refl;
  filled = lo;
  no_longer = omega arith;
  small = omega arith;
  width = omega arith;
  ram = inr hi;
  from = omega arith;
  upto = omega arith;
  stored = λ e. refl;
  bzip2 = λ e. omega arith;
}

write_blocks-layout_example :
    (write_blocks 1 two_blocks (start_chunk 1)).body ≡ layout 1 0 (initials ++ two_blocks)
write_blocks-layout_example =
    write_blocks-layout 1 two_blocks (omega arith, (omega arith, tt)) (refl, (refl, tt))

write_blocks-read_streams_example :
    read_streams limits (write_blocks 1 two_blocks (start_chunk 1)).body
    ≡ some (delivered (blocks_of 0 two_blocks), delivered (blocks_of 1 two_blocks))
write_blocks-read_streams_example =
    write_blocks-read_streams limits two_blocks (omega arith, (omega arith, tt)) refl refl
      (refl, (refl, tt)) (inl (stored-IsReadable (5 ∷ 6 ∷ []) (omega arith) (omega arith), tt))
      (inl (stored-IsReadable (7 ∷ []) (omega arith) (omega arith), tt))
      (rw two_blocks_written two_bytes-Bounds)

abbrev first_block : UncompThread
first_block = record { s_buf = 5 ∷ 6 ∷ []; c_len = 2; u_len = 2; c_type = 3 }

first_block_read : fill_another limits two_bytes 0 8 8 ≡ some (start first_block 0 14)
unfolding fill_another read_block_header is_empty_block header_ok size_ok from_le
first_block_read = refl

fill_another-IsChecked_example : IsChecked limits two_bytes 8 first_block 0
fill_another-IsChecked_example =
    fill_another-IsChecked limits two_bytes 0 8 8 first_block 0 14 first_block_read

abbrev no_bytes : List ℕ
no_bytes = []

empty_header : drop 0 (3 ∷ 0 ∷ 0 ∷ 0 ∷ no_bytes) ≡ block_bytes 1 (stored []) 0 ++ []
unfolding block_bytes block_header le_bytes
empty_header = refl

empty_block_refused_example : fill_another limits (3 ∷ 0 ∷ 0 ∷ 0 ∷ no_bytes) 0 0 0 ≡ none
empty_block_refused_example =
    empty_block_refused limits (3 ∷ 0 ∷ 0 ∷ 0 ∷ no_bytes) [] 0 0 0 0 (stored []) empty_header refl
      refl (omega arith) (inl (omega arith))

read_chain_fuel_example :
    read_chain (19 + 5) limits two_bytes 0 8 0 ≡ read_chain 19 limits two_bytes 0 8 0
read_chain_fuel_example = read_chain_fuel 19 5 limits two_bytes 0 8 0 (omega arith)
