-- ===== src/Backend/Codecs.antt =====
-- stream.c, `zpaq_compress_buf`, `bzip2_compress_buf`, `gzip_compress_buf`, `lzo_compress_buf`.
use lrzip.Common.{
  ℕ, ◌+◌, ◌*◌, ◌/◌, ◌%◌, ◌^◌, Bool, true, false, not, ◌&&◌, List, length, take, leb, if◌then◌else◌,
}
use lrzip.Memory.{round_up_page}
use lrzip.Backend.Types.{
  Libs, Malloc, Settings, SharedControl, CompressThread, Ret, Coded, coded, outbuff_full, failed,
  ctype_bzip2, ctype_lzo, ctype_gzip, ctype_zpaq,
}
use lrzip.Backend.Lz4.{lz4_compresses}

-- The block as it was: "Incompressible, leave as CTYPE_NONE" where `ok`.
abbrev pub unchanged : Bool → CompressThread → SharedControl → Ret
unchanged ok cti control = record { ok = ok; cti = cti; control = control }

-- The block's bytes are the compressed ones.
abbrev pub replaced : ℕ → List ℕ → CompressThread → SharedControl → Ret
replaced c_type bytes cti control = record {
  ok = true;
  cti = record cti { s_buf = bytes; c_len = length bytes; c_type = c_type };
  control = control;
}

-- The compressed bytes take the block's place where there are fewer of them.
abbrev pub replaced_if_smaller : ℕ → List ℕ → CompressThread → SharedControl → Ret
replaced_if_smaller c_type bytes cti control =
    if leb cti.c_len (length bytes)
    then unchanged true cti control
    else replaced c_type bytes cti control

abbrev pub take_coded : ℕ → CompressThread → SharedControl → Coded → Ret
take_coded c_type cti control (coded bytes) = replaced_if_smaller c_type bytes cti control
take_coded c_type cti control outbuff_full = unchanged true cti control
take_coded c_type cti control failed = unchanged false cti control

-- After the test of lz4: `pack` needs a buffer of `size` bytes.
abbrev pub tested : Malloc → ℕ → CompressThread → Bool × SharedControl → (SharedControl → Ret) → Ret
tested malloc size cti (compressible, control) pack =
    if not compressible
    then unchanged true cti control
    else if not (malloc size)
    then unchanged false cti control
    else pack control

-- `LZO1X_1_MEM_COMPRESS`: 16384 pointers of 8 bytes
abbrev pub lzo1x_1_mem_compress : ℕ
lzo1x_1_mem_compress = 16384 * 8

abbrev pub u32 : ℕ → ℕ
u32 n = n % 2 ^ 32

module _ (l : Libs) (malloc : Malloc) (s : Settings) where
  unfoldable pub zpaq_compress_buf : SharedControl → CompressThread → Ret
  zpaq_compress_buf control cti =
      tested malloc (round_up_page s.page_size ((cti.s_len + 10000) * 102 / 100)) cti
        (lz4_compresses l malloc s control cti.s_buf)
        (replaced_if_smaller ctype_zpaq (l.zpaq_compress (s.compression_level / 4 + 1) cti.s_buf)
          cti)

  -- The library takes both lengths as 32-bit numbers.
  unfoldable pub bzip2_compress_buf : SharedControl → CompressThread → Ret
  bzip2_compress_buf control cti =
      tested malloc (u32 (round_up_page s.page_size cti.s_len)) cti
        (lz4_compresses l malloc s control cti.s_buf)
        (λ c. take_coded ctype_bzip2 cti c (
          l.bz_compress s.compression_level (u32 (round_up_page s.page_size cti.s_len))
            (take (u32 cti.s_len) cti.s_buf)))

  -- No test of lz4 here.
  unfoldable pub gzip_compress_buf : SharedControl → CompressThread → Ret
  gzip_compress_buf control cti =
      let dlen = round_up_page s.page_size cti.s_len in
      if not (malloc dlen)
      then unchanged false cti control
      else take_coded ctype_gzip cti control (l.z_compress2 s.compression_level dlen cti.s_buf)

  -- Nor here, and the buffers are two: the work memory and the output.
  unfoldable pub lzo_compress_buf : SharedControl → CompressThread → Ret
  lzo_compress_buf control cti =
      let dlen = round_up_page s.page_size (cti.s_len + cti.s_len / 16 + 64 + 3) in
      let bytes = l.lzo1x_1_compress cti.s_buf in
      if not (malloc lzo1x_1_mem_compress && malloc dlen)
      then unchanged false cti control
      else if leb cti.s_len (length bytes)
      then unchanged true cti control
      else replaced ctype_lzo bytes cti control
