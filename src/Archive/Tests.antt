-- ===== src/Archive/Tests.antt =====
-- A chunk whose literals are zeros, through the codec of the back ends' tests.
use lrzip.Common.{ℕ, ◌≡◌, refl, arith, some, true, List, [], ◌∷◌, replicate, inl, inr}
use lrzip.Common.Bytes.{le_bytes}
use lrzip.Memory.{round_up_page, lzma_level}
use lrzip.Backend.Types.{SharedControl}
use lrzip.Backend.Filter.{filter_stream_init, filter_stream_conv, filter_convert_mem}
use lrzip.Backend.Filter.Trial.{stream_filter_pick}
use lrzip.Backend.Lz4.{lz4_shrinks, lz4_loop, lz4_test, lz4_compresses}
use lrzip.Backend.Lzma.{
  dict_of, lzma_attempts, all_attempts, after_attempts, lzma_result, lzma_compress_buf,
  publish_properties,
}
use lrzip.Backend.Packed.{CoversProps}
use lrzip.Backend.Thread.{default_lclppb, compress_buf, attempt, compress_block, compress_blocks}
use lrzip.Backend.Tests.Toy.{
  toy, toy-Inverse, toy_settings, toy_control, toy_props, granted, delta-IsMode, unset-IsShared,
}
use lrzip.Chain.{
  write_at, block_header, write_initial_header, start_chunk, write_block, write_blocks,
}
use lrzip.Chain.Reader.{Limits}
use lrzip.Chain.Reader.Follows.{Bounds}
use lrzip.Archive.{Buffer, write_chunk, read_chunk, buffers_of}
use lrzip.Stream.Read.{filled}
use lrzip.Archive.RoundTrip.{IsChunk, write_chunk-read_chunk}
use lrzip.Stream.Write.{close_stream_out, write_stream, write_loop, write_round, flush_if_full}
use lrzip.Rzip.Search.{hash_search, finish_output, put_tail, searched, search_loop, start}
use lrzip.Archive.Whole.{AreBuffers, rzip_chunk-read_chunk}
use lrzip.Rzip.Table.{Level}
use lrzip.Rzip.Output.{
  Output, s0_flush, put_literal, put_literal_loop, put_run, put_literal_bytes, put_header,
  put_vchars, s0_write, s0_write_loop, put_u8, count_literal, s0_write_round, write_sbstream,
  write_sb_loop,
}
use lrzip.Rzip.Width.{chunk_width}
use lrzip.Runzip.Chunk.{Reader, unzip_tokens}
use lrzip.RoundTrip.{rzip_chunk, open_chunk, Restores}

abbrev chunk : List Buffer
chunk = (0, 5 ∷ 6 ∷ []) ∷ (1, replicate 64 0) ∷ []

abbrev chunk_bytes : List ℕ
chunk_bytes = 3 ∷ 0 ∷ 0 ∷ 8 ∷ 3 ∷ 0 ∷ 0 ∷ 14 ∷ 3 ∷ 2 ∷ 2 ∷ 0 ∷ 5 ∷ 6 ∷ 11 ∷ 2 ∷ 64 ∷ 0 ∷ 0 ∷ 64 ∷ []

abbrev limits : Limits
limits = record {
  chunk_bytes = 1;
  initial_pos = 30;
  payload_end = 50;
  infile_size = 0;
  maxram = 100;
}

abbrev after : SharedControl
after = record toy_control {
  lz4_test_done = true;
  lz4_compressible = true;
  lzma_properties = toy_props;
  lzma_prop_set = true;
}

chunk_written :
    write_chunk toy toy_settings granted granted toy_control 1 chunk ≡ some (chunk_bytes, after)
unfolding write_chunk compress_blocks compress_block attempt compress_buf lzma_compress_buf
    lzma_result after_attempts lz4_compresses lz4_test lz4_loop lz4_shrinks all_attempts
    lzma_attempts publish_properties filter_convert_mem filter_stream_conv filter_stream_init
    stream_filter_pick default_lclppb round_up_page dict_of lzma_level write_blocks write_block
    start_chunk write_initial_header block_header write_at le_bytes
chunk_written = refl

chunk-IsChunk : IsChunk limits chunk
chunk-IsChunk = record {
  two = (omega arith, (omega arith, tt));
  control = refl;
  literal = refl;
  control_filled = inl (omega arith, tt);
  literal_filled = inl (omega arith, tt);
  small = (
    record { small = omega arith; width = omega arith; ram = inr (omega arith) },
    (record { small = omega arith; width = omega arith; ram = inr (omega arith) }, tt),
  );
}

chunk_bytes-Bounds : Bounds limits chunk_bytes
chunk_bytes-Bounds = record {
  payload = inr (omega arith);
  infile = inl refl;
  small = omega arith;
  width = omega arith;
}

covers_itself : CoversProps toy_props toy_props
covers_itself = record { lclppb = refl; window = omega arith }

write_chunk-read_chunk_example :
    read_chunk toy granted 4096 toy_props limits chunk_bytes
    ≡ some (filled (buffers_of 0 chunk), filled (buffers_of 1 chunk))
write_chunk-read_chunk_example =
    write_chunk-read_chunk toy toy_settings granted granted granted 4096 toy_props toy_control after
      limits chunk chunk_bytes toy-Inverse delta-IsMode unset-IsShared chunk-IsChunk chunk_written
      chunk_bytes-Bounds (λ n. refl) (λ e. covers_itself)

abbrev four_bytes : List ℕ
four_bytes = 1 ∷ 2 ∷ 3 ∷ 4 ∷ []

abbrev level_zero : Level
level_zero = record { mb_used = 1; initial_freq = 4; max_chain_len = 1 }

abbrev rzipped : Output
rzipped = rzip_chunk (λ i. i) 100 2 true level_zero 0 four_bytes

abbrev streams : List Buffer
streams = (1, four_bytes) ∷ (0, 0 ∷ 4 ∷ 0 ∷ 0 ∷ 0 ∷ 0 ∷ []) ∷ []

streams-AreBuffers : AreBuffers rzipped streams
unfolding close_stream_out rzip_chunk hash_search finish_output s0_flush put_literal
    put_literal_loop put_run put_literal_bytes put_header put_vchars s0_write s0_write_loop put_u8
    count_literal put_tail searched search_loop start s0_write_round write_stream write_loop
    write_round flush_if_full write_sbstream write_sb_loop le_bytes
streams-AreBuffers = record { control = refl; literal = refl }

abbrev streams_bytes : List ℕ
streams_bytes =
    3 ∷ 0 ∷ 0 ∷ 16 ∷ 3 ∷ 0 ∷ 0 ∷ 8 ∷ 3 ∷ 4 ∷ 4 ∷ 0 ∷ 1 ∷ 2 ∷ 3 ∷ 4 ∷ 3 ∷ 6 ∷ 6 ∷ 0 ∷ 0 ∷ 4 ∷ 0 ∷ 0
    ∷ 0 ∷ 0 ∷ []

streams_written :
    write_chunk toy toy_settings granted granted toy_control 1 streams
    ≡ some (streams_bytes, toy_control)
unfolding write_chunk compress_blocks compress_block attempt default_lclppb write_blocks write_block
    start_chunk write_initial_header block_header write_at le_bytes
streams_written = refl

abbrev framed : Limits
framed = record limits { payload_end = 56 }

streams-IsChunk : IsChunk framed streams
streams-IsChunk = record {
  two = (omega arith, (omega arith, tt));
  control = refl;
  literal = refl;
  control_filled = inl (omega arith, tt);
  literal_filled = inl (omega arith, tt);
  small = (
    record { small = omega arith; width = omega arith; ram = inr (omega arith) },
    (record { small = omega arith; width = omega arith; ram = inr (omega arith) }, tt),
  );
}

streams_bytes-Bounds : Bounds framed streams_bytes
streams_bytes-Bounds = record {
  payload = inr (omega arith);
  infile = inl refl;
  small = omega arith;
  width = omega arith;
}

rzip_chunk-read_chunk_example :
    (control : List (List ℕ)) × (literal : List (List ℕ)) × (read_chunk toy granted 4096 toy_props
        framed streams_bytes
      ≡ some (control, literal))
    × (r : Reader) × (unzip_tokens 0 (chunk_width 4) 2 (open_chunk control literal (9 ∷ []))
        ≡ some r)
    × Restores 0 four_bytes (9 ∷ []) r
rzip_chunk-read_chunk_example =
    rzip_chunk-read_chunk (λ i. i) 100 2 true level_zero 0 0 four_bytes (9 ∷ []) toy toy_settings
      granted granted granted 4096 toy_props toy_control toy_control framed streams streams_bytes
      (omega arith) (omega arith) streams-AreBuffers toy-Inverse delta-IsMode unset-IsShared
      streams-IsChunk streams_written streams_bytes-Bounds (λ n. refl) (λ e. absurd (cc))
