-- ===== src/Backend/Restore.antt =====
-- stream.c: each compression function leaves the block as it was or one that the reader restores.
pub mod Lzma
use lrzip.Common.{
  ℕ, zero, suc, ◌+◌, ◌-◌, ◌*◌, ◌/◌, ◌%◌, ◌^◌, ◌≤◌, ◌<◌, ◌≡◌, refl, sym, ap, ◌∙◌, ◌⊎◌, arith, Bool,
  true, false, not, ◌&&◌, Option, none, some, List, length, get_or, take, ltb, leb, ◌==◌, ==_iff,
  ==_refl, if◌then◌else◌, Bool-cases, inl, inr,
}
use lrzip.Memory.{round_up_page}
use lrzip.Backend.Types.{
  Libs, Malloc, Settings, SharedControl, CompressThread, Ret, LzmaRet, sz_ok, sz_error_mem,
  sz_error_output_eof, sz_error, Coded, coded, outbuff_full, failed, FilterMode, off, fixed, auto,
  ctype_bzip2, ctype_lzo, ctype_gzip, ctype_zpaq, lrz_filter_none, lrz_filter_x86, lrz_filter_max,
}
use lrzip.Backend.Filter.{filter_convert_mem, filter_convert_mem-inverse, length-filter_convert_mem}
use lrzip.Backend.Filter.Trial.{stream_filter_pick, filter_trial, filter_trial_bounded}
use lrzip.Backend.Lz4.{lz4_compresses}
use lrzip.Backend.Codecs.{
  replaced, replaced_if_smaller, take_coded, unchanged, zpaq_compress_buf, bzip2_compress_buf,
  gzip_compress_buf, lzo_compress_buf, lzo1x_1_mem_compress, u32,
}
use lrzip.Backend.Lzma.{
  Attempts, no_buffer, returned, fall_back, dict_of, publish_properties, ctype_of_filter,
  through_filter, restore_filter, after_attempts, after_return, block_filter, lzma_attempts,
  all_attempts, lzma_result, lzma_block, lzma_compress_buf, fast_bytes, lzma_threads,
}
use lrzip.Backend.Uncomp.{ucompress, lzma_decompress_buf, ctype_filter_kind}
use lrzip.Backend.Packed.{
  CoversProps, Inverse, IsBlock, IsPacked, Outcome, Decodes, inflated_lem, whole, replaced-Outcome,
  if_smaller-Outcome, coded-Outcome, tested-Outcome, zpaq-Decodes, gzip-Decodes, lzo-Decodes,
  bzip2-Decodes,
}

module _ (l : Libs) (malloc : Malloc) (s : Settings) (inv : Inverse l) (cti : CompressThread)
    (block : IsBlock cti) (c : SharedControl) where
  pub zpaq_compress_buf-Outcome : Outcome l cti (zpaq_compress_buf l malloc s c cti)
  unfolding zpaq_compress_buf
  zpaq_compress_buf-Outcome =
      tested-Outcome cti block malloc _ (lz4_compresses l malloc s c cti.s_buf)
        (replaced_if_smaller ctype_zpaq (l.zpaq_compress (s.compression_level / 4 + 1) cti.s_buf)
          cti)
        (if_smaller-Outcome cti block ctype_zpaq _ (lz4_compresses l malloc s c cti.s_buf).1
          (omega arith) (omega arith) (inv.zpaq_filled (s.compression_level / 4 + 1) cti.s_buf)
          (λ less.
            zpaq-Decodes inv (lz4_compresses l malloc s c cti.s_buf).1 cti.s_buf
              (s.compression_level / 4 + 1)))

  pub gzip_compress_buf-Outcome : Outcome l cti (gzip_compress_buf l malloc s c cti)
  unfolding gzip_compress_buf
  gzip_compress_buf-Outcome =
      let size = round_up_page s.page_size cti.s_len in
      let r = l.z_compress2 s.compression_level size cti.s_buf in
      elim (Bool-cases (malloc size)) [
        | inl m ↦ rw m (
            coded-Outcome cti block ctype_gzip c r (omega arith) (omega arith)
              (λ bytes e. inv.gzip_filled s.compression_level size cti.s_buf bytes e)
              (λ bytes e less. gzip-Decodes inv c cti.s_buf s.compression_level size bytes e))
        | inr m ↦ rw m (inl refl)
      ]

  -- The block is shorter than 4 GiB.
  pub bzip2_compress_buf-Outcome :
      length cti.s_buf < 2 ^ 32 → Outcome l cti (bzip2_compress_buf l malloc s c cti)
  unfolding bzip2_compress_buf
  bzip2_compress_buf-Outcome small =
      let size = u32 (round_up_page s.page_size cti.s_len) in
      let r = l.bz_compress s.compression_level size (take (u32 cti.s_len) cti.s_buf) in
      tested-Outcome cti block malloc size (lz4_compresses l malloc s c cti.s_buf)
        (λ k. take_coded ctype_bzip2 cti k r)
        (coded-Outcome cti block ctype_bzip2 (lz4_compresses l malloc s c cti.s_buf).1 r
          (omega arith) (omega arith)
          (λ bytes e.
            inv.bzip2_filled s.compression_level size (take (u32 cti.s_len) cti.s_buf) bytes e)
          (λ bytes e less.
            bzip2-Decodes inv (lz4_compresses l malloc s c cti.s_buf).1 cti.s_buf
              s.compression_level size bytes small (omega (arith, block.c_len))
              (ap
                  (λ n.
                    l.bz_compress s.compression_level (u32 (round_up_page s.page_size cti.s_len))
                      (take (u32 n) cti.s_buf))
                  (sym block.s_len)
                ∙ e)))

  pub lzo_compress_buf-Outcome : Outcome l cti (lzo_compress_buf l malloc s c cti)
  unfolding lzo_compress_buf
  lzo_compress_buf-Outcome =
      elim (Bool-cases (
        malloc lzo1x_1_mem_compress
        && malloc (round_up_page s.page_size (cti.s_len + cti.s_len / 16 + 64 + 3)))) [
          | inl m ↦
              rw m (elim (Bool-cases (leb cti.s_len (length (l.lzo1x_1_compress cti.s_buf)))) [
                | inl e ↦ rw e (inl refl)
                | inr e ↦ rw e (
                    replaced-Outcome cti block ctype_lzo (l.lzo1x_1_compress cti.s_buf) c
                      (omega arith) (omega arith) (inv.lzo_filled cti.s_buf)
                      (ground (arith, block.s_len, block.c_len)) (lzo-Decodes inv c cti.s_buf))
              ])
          | inr m ↦ rw m (inl refl)
        ]
