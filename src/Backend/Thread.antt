-- ===== src/Backend/Thread.antt =====
-- stream.c, `compthread` up to its turn to write: what becomes of a block's bytes.
pub mod Restores
use lrzip.Common.{
  ℕ, zero, suc, ◌≤◌, ◌<◌, ◌^◌, ◌≡◌, refl, sym, ap, ap₂, ◌∙◌, arith, Bool, true, false, not, ◌&&◌,
  Option, none, some, List, [], ◌∷◌, length, map, take, take-all, All, leb, ◌==◌, if◌then◌else◌,
  ◌>>=◌, Bool-cases, inl, inr, set,
}
use lrzip.Memory.{round_up_page}
use lrzip.Backend.Types.{
  Libs, Malloc, Settings, SharedControl, Backend, no_compress, lzma, lzo, bzip2, gzip, zpaq,
  CompressThread, Ret, ctype_none,
}
use lrzip.Backend.Codecs.{
  unchanged, zpaq_compress_buf, bzip2_compress_buf, gzip_compress_buf, lzo_compress_buf,
}
use lrzip.Backend.Lzma.{lzma_compress_buf}
use lrzip.Backend.Uncomp.{ucompress}
use lrzip.Backend.Packed.{CoversProps, Inverse, IsBlock, Outcome, as_stored}
use lrzip.Backend.Restore.{
  zpaq_compress_buf-Outcome, bzip2_compress_buf-Outcome, gzip_compress_buf-Outcome,
  lzo_compress_buf-Outcome,
}
use lrzip.Backend.Restore.Lzma.{IsMode, lzma_compress_buf-Compresses}
use lrzip.Backend.Shared.{
  CoversProps-trans, IsShared, Grows, SameProps, SameProps-refl, Compresses, SameProps-Compresses,
  Grows-trans, zpaq-SameProps, bzip2-SameProps, gzip-SameProps, lzo-SameProps,
}

-- `cthreads[i]` when the thread starts.
abbrev pub new_thread : List ℕ → CompressThread
new_thread buf = record { s_buf = buf; s_len = length buf; c_type = ctype_none; c_len = length buf }

-- "default lc/lp/pb byte to 93 if magic must be written before any LZMA job"
unfoldable pub default_lclppb : Settings → Backend → SharedControl → SharedControl
default_lclppb s lzma c =
    if s.tmp_outbuf && not c.lzma_prop_set
    then record c { lzma_properties = set c.lzma_properties 0 93 }
    else c
default_lclppb s other c = c

module _ (l : Libs) (s : Settings) where
  unfoldable pub compress_buf : Backend → Malloc → SharedControl → CompressThread → Ret
  compress_buf no_compress malloc c cti = unchanged true cti c
  compress_buf lzma malloc c cti = lzma_compress_buf l malloc s c cti
  compress_buf lzo malloc c cti = lzo_compress_buf l malloc s c cti
  compress_buf bzip2 malloc c cti = bzip2_compress_buf l malloc s c cti
  compress_buf gzip malloc c cti = gzip_compress_buf l malloc s c cti
  compress_buf zpaq malloc c cti = zpaq_compress_buf l malloc s c cti

  -- From the label `retry` on: a block of less than 64 bytes is left alone.
  unfoldable pub attempt : Malloc → SharedControl → CompressThread → Ret
  attempt malloc c cti =
      if leb 64 cti.c_len then compress_buf s.backend malloc c cti else unchanged true cti c

  -- An attempt in parallel and, where that fails, one that waited for its turn; `none` is "Failed
  -- to compress in compthread".
  unfoldable pub compress_block :
      Malloc → Malloc → SharedControl → List ℕ → Option (CompressThread × SharedControl)
  compress_block parallel serial c buf =
      let first = attempt parallel (default_lclppb s s.backend c) (new_thread buf) in
      let second = attempt serial first.control first.cti in
      if first.ok
      then some (first.cti, first.control)
      else if second.ok
      then some (second.cti, second.control)
      else none

  -- The blocks of a job, in the order in which they publish their properties.
  unfoldable pub compress_blocks :
      Malloc → Malloc → SharedControl → List (List ℕ) → Option (List CompressThread × SharedControl)
  compress_blocks parallel serial c [] = some ([], c)
  compress_blocks parallel serial c (b ∷ bs) = compress_block parallel serial c b >>= λ (cti, d).
      compress_blocks parallel serial d bs >>= λ (ctis, e). some (cti ∷ ctis, e)
