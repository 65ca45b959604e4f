-- ===== src/Backend/Uncomp.antt =====
-- stream.c, the decompression functions and the `switch` of `ucompthread`.
use lrzip.Common.{
  ℕ, ◌+◌, ◌-◌, ◌%◌, ◌^◌, false, not, ◌&&◌, Option, none, some, List, length, take, ◌==◌, leb,
  if◌then◌else◌, ◌>>=◌,
}
use lrzip.Memory.{round_up_page}
use lrzip.Backend.Types.{
  Libs, Malloc, UncompThread, ctype_none, ctype_bzip2, ctype_lzo, ctype_lzma, ctype_gzip,
  ctype_zpaq, ctype_lzma_bcj, ctype_lzma_delta4, lrz_filter_none, lrz_filter_x86,
}
use lrzip.Backend.Filter.{filter_convert_mem}

-- "Map a block ctype back to its filter kind"
unfoldable pub ctype_filter_kind : ℕ → ℕ
ctype_filter_kind ctype =
    if leb ctype_lzma_bcj ctype && leb ctype ctype_lzma_delta4
    then lrz_filter_x86 + ctype - ctype_lzma_bcj
    else lrz_filter_none

-- What every function does around the library's call: a buffer for the result, and the length that
-- the header gave; `none` is -1, with the buffer as it was.
abbrev pub inflated : Malloc → ℕ → ℕ → ℕ → Option (List ℕ) → Option (List ℕ)
inflated malloc page_size dlen u_len bytes =
    if not (malloc (round_up_page page_size dlen))
    then none
    else bytes >>= λ b. if length b == u_len then some b else none

module _ (l : Libs) (malloc : Malloc) (page_size : ℕ) where
  unfoldable pub zpaq_decompress_buf : UncompThread → Option (List ℕ)
  zpaq_decompress_buf u =
      inflated malloc page_size u.u_len u.u_len (l.zpaq_decompress u.u_len (take u.c_len u.s_buf))

  unfoldable pub bzip2_decompress_buf : UncompThread → Option (List ℕ)
  bzip2_decompress_buf u =
      inflated malloc page_size (u.u_len % 2 ^ 32) u.u_len
        (l.bz_decompress (u.u_len % 2 ^ 32) (take (u.c_len % 2 ^ 32) u.s_buf))

  unfoldable pub gzip_decompress_buf : UncompThread → Option (List ℕ)
  gzip_decompress_buf u =
      inflated malloc page_size u.u_len u.u_len (l.z_uncompress u.u_len (take u.c_len u.s_buf))

  unfoldable pub lzma_decompress_buf : List ℕ → UncompThread → Option (List ℕ)
  lzma_decompress_buf lzma_properties u =
      inflated malloc page_size u.u_len u.u_len
        (l.lzma_uncompress lzma_properties u.u_len (take u.c_len u.s_buf))

  unfoldable pub lzo_decompress_buf : UncompThread → Option (List ℕ)
  lzo_decompress_buf u =
      inflated malloc page_size u.u_len u.u_len
        (l.lzo1x_decompress_safe u.u_len (take u.c_len u.s_buf))

  -- The block that the thread leaves. An unknown type is an error.
  unfoldable pub ucompress : List ℕ → UncompThread → Option (List ℕ)
  ucompress lzma_properties u =
      if u.c_type == ctype_none
      then some (take u.u_len u.s_buf)
      else if u.c_type == ctype_lzma
      then lzma_decompress_buf lzma_properties u
      else if leb ctype_lzma_bcj u.c_type && leb u.c_type ctype_lzma_delta4
      then (lzma_decompress_buf lzma_properties u >>= λ b.
          some (filter_convert_mem l (ctype_filter_kind u.c_type) false b))
      else if u.c_type == ctype_lzo
      then lzo_decompress_buf u
      else if u.c_type == ctype_bzip2
      then bzip2_decompress_buf u
      else if u.c_type == ctype_gzip
      then gzip_decompress_buf u
      else if u.c_type == ctype_zpaq
      then zpaq_decompress_buf u
      else none
