-- ===== src/Backend/Tests.antt =====
-- A job over a codec that keeps the length of a block of zeros, and the theorems on it.
pub mod Toy
use lrzip.Common.{
  ◌/◌, ℕ, ◌+◌, ◌^◌, ◌≤◌, ◌<◌, ◌≡◌, refl, arith, Bool, true, false, Option, none, some, List, [],
  ◌∷◌, map, length, replicate, length-replicate, ◌-◌, All, get_or, min,
}
use lrzip.Memory.{round_up_page, lzma_level}
use lrzip.Backend.Types.{
  Libs, Settings, SharedControl, CompressThread, FilterMode, off, fixed, auto, Backend, lzma, bzip2,
  gzip, sz_ok,
}
use lrzip.Backend.Filter.{
  filter_stream_init, filter_stream_conv, filter_convert_mem, filter_convert_mem-inverse,
}
use lrzip.Backend.Filter.Trial.{
  stream_filter_pick, TrialBest, IsBest, filter_trial, filter_trial-IsBest, sample_compress,
  sample_of, plain_len,
}
use lrzip.Backend.Lz4.{
  lz4_shrinks, lz4_loop, lz4_test, lz4_test-fuel, lz4_compresses, lz4_compresses_once, passes,
  stream_bufsize,
}
use lrzip.Backend.Lzma.{
  Attempts, dict_of, lzma_attempts, all_attempts, all_attempts-some, after_attempts, lzma_result,
  lzma_compress_buf, publish_properties,
}
use lrzip.Backend.Uncomp.{ucompress}
use lrzip.Backend.Packed.{CoversProps, as_stored}
use lrzip.Backend.Shared.{IsShared, Grows, publish_properties-Grows}
use lrzip.Backend.Thread.{default_lclppb, compress_buf, attempt, compress_block, compress_blocks}
use lrzip.Backend.Thread.Restores.{compress_blocks-ucompress}
use lrzip.Backend.Tests.Toy.{
  toy, toy-Inverse, toy_settings, toy_control, toy_props, granted, delta-IsMode, unset-IsShared,
}

abbrev two_bytes : List ℕ
two_bytes = 5 ∷ 6 ∷ []

abbrev toy_blocks : List (List ℕ)
toy_blocks = replicate 64 0 ∷ (1 ∷ 2 ∷ []) ∷ []

abbrev toy_threads : List CompressThread
toy_threads =
    record { s_buf = 0 ∷ 64 ∷ []; s_len = 64; c_type = 11; c_len = 2 }
    ∷ record { s_buf = 1 ∷ 2 ∷ []; s_len = 2; c_type = 3; c_len = 2 }
    ∷ []

abbrev toy_after : SharedControl
toy_after = record {
  lz4_test_done = true;
  lz4_compressible = true;
  lzma_dictsize = 2 ^ 20;
  lzma_properties = toy_props;
  lzma_prop_set = true;
  magic_written = true;
}

-- The zeros are packed as a filtered LZMA block, the short block is stored.
toy_job :
    compress_blocks toy toy_settings granted granted toy_control toy_blocks
    ≡ some (toy_threads, toy_after)
unfolding compress_blocks compress_block attempt compress_buf lzma_compress_buf lzma_result
    after_attempts lz4_compresses lz4_test lz4_loop lz4_shrinks all_attempts lzma_attempts
    publish_properties filter_convert_mem filter_stream_conv filter_stream_init stream_filter_pick
    default_lclppb round_up_page dict_of lzma_level
toy_job = refl

covers_itself : CoversProps toy_props toy_props
covers_itself = record { lclppb = refl; window = omega arith }

compress_blocks-ucompress_example :
    map (λ cti. ucompress toy granted 4096 toy_props (as_stored cti)) toy_threads
    ≡ map some toy_blocks
compress_blocks-ucompress_example =
    compress_blocks-ucompress toy toy_settings granted granted granted 4096 toy_props toy_control
      toy_after toy_blocks toy_threads toy-Inverse delta-IsMode (omega arith, (omega arith, tt))
      unset-IsShared toy_job (refl, (refl, tt)) (λ e. covers_itself)

publish_properties-Grows_example :
    IsShared (publish_properties toy_settings toy_props toy_control)
    × Grows toy_control (publish_properties toy_settings toy_props toy_control)
    × ((publish_properties toy_settings toy_props toy_control).lzma_prop_set ≡ true)
    × CoversProps (publish_properties toy_settings toy_props toy_control).lzma_properties toy_props
publish_properties-Grows_example =
    publish_properties-Grows toy_settings toy_props toy_control unset-IsShared refl

all_attempts-some_example :
    (a : Attempts × SharedControl) × (all_attempts toy granted toy_settings (7 ∷ []) toy_control
      ≡ some a)
all_attempts-some_example =
    all_attempts-some toy granted toy_settings (7 ∷ []) toy_control (omega arith)

zero_bytes : ℕ → List ℕ
zero_bytes n = replicate n 0

length-zero_bytes : (n : ℕ) → length (zero_bytes n) ≡ n
unfolding zero_bytes
length-zero_bytes n = length-replicate n 0

-- A library that compresses everything to one byte, on a mebibyte.
abbrev one_byte : Libs
one_byte = record toy { lzma_compress = λ level dict fb n room b. sz_ok (1 ∷ []) toy_props }

filter_trial-IsBest_example :
    (best : TrialBest) × (filter_trial one_byte granted (zero_bytes (2 ^ 20)) ≡ best.kind)
    × IsBest one_byte
        (sample_of (zero_bytes (2 ^ 20)))
        1
        6
        (record { kind = 0; len = 1 - 1 / 64 })
        best
filter_trial-IsBest_example =
    filter_trial-IsBest one_byte granted (zero_bytes (2 ^ 20)) 1
      (omega (arith, length-zero_bytes (2 ^ 20))) refl refl
