-- ===== src/Backend/Packed.antt =====
-- What the compression and the decompression functions of stream.c do to each other's blocks, over
-- libraries that undo themselves.
use lrzip.Common.{
  ℕ, ◌%◌, ◌^◌, ◌≤◌, ◌<◌, ◌≡◌, refl, ◌⊎◌, arith, Bool, true, false, Option, some, List, length,
  get_or, take, take-all, leb, ◌==◌, ==_refl, Bool-cases, inl, inr,
}
use lrzip.Memory.{round_up_page}
use lrzip.Backend.Types.{
  Libs, Malloc, SharedControl, CompressThread, UncompThread, Ret, Coded, coded, outbuff_full,
  failed, sz_ok, ctype_none, ctype_bzip2, ctype_lzo, ctype_gzip, ctype_zpaq,
}
use lrzip.Backend.Filter.{Reversible}
use lrzip.Backend.Codecs.{replaced, replaced_if_smaller, take_coded, tested, u32}
use lrzip.Backend.Lzma.{dict_of}
use lrzip.Backend.Uncomp.{
  ucompress, inflated, zpaq_decompress_buf, bzip2_decompress_buf, gzip_decompress_buf,
  lzo_decompress_buf,
}

-- Properties with the same lc, lp and pb, and a window that is no smaller.
pub record CoversProps (q p : List ℕ) : Type 0 where
  pub lclppb : get_or q 0 0 ≡ get_or p 0 0
  pub window : dict_of p ≤ dict_of q

-- Given enough room, each library restores what it compressed; LZMA also with properties that cover
-- those of the block, and its properties begin with the byte for the default lc, lp and pb. No
-- library leaves nothing.
pub record Inverse (l : Libs) : Type 0 where
  pub filters : Reversible l
  pub zpaq :
      (level room : ℕ) (b : List ℕ)
      → length b ≤ room
      → l.zpaq_decompress room (l.zpaq_compress level b) ≡ some b
  pub bzip2 :
      (level size room : ℕ) (b bytes : List ℕ)
      → l.bz_compress level size b ≡ coded bytes
      → length b ≤ room
      → l.bz_decompress room bytes ≡ some b
  pub gzip :
      (level size room : ℕ) (b bytes : List ℕ)
      → l.z_compress2 level size b ≡ coded bytes
      → length b ≤ room
      → l.z_uncompress room bytes ≡ some b
  pub lzo :
      (room : ℕ) (b : List ℕ)
      → length b ≤ room
      → l.lzo1x_decompress_safe room (l.lzo1x_1_compress b) ≡ some b
  pub lzma :
      (level dictsize : ℕ) (fb : Option ℕ) (num_threads size room : ℕ) (b bytes props q : List ℕ)
      → l.lzma_compress level dictsize fb num_threads size b ≡ sz_ok bytes props
      → CoversProps q props
      → length b ≤ room
      → l.lzma_uncompress q room bytes ≡ some b
  pub lzma_props :
      (level dictsize : ℕ) (fb : Option ℕ) (num_threads size : ℕ) (b bytes props : List ℕ)
      → l.lzma_compress level dictsize fb num_threads size b ≡ sz_ok bytes props
      → get_or props 0 0 ≡ 93
  pub zpaq_filled : (level : ℕ) (b : List ℕ) → 1 ≤ length (l.zpaq_compress level b)
  pub bzip2_filled :
      (level size : ℕ) (b bytes : List ℕ)
      → l.bz_compress level size b ≡ coded bytes
      → 1 ≤ length bytes
  pub gzip_filled :
      (level size : ℕ) (b bytes : List ℕ)
      → l.z_compress2 level size b ≡ coded bytes
      → 1 ≤ length bytes
  pub lzo_filled : (b : List ℕ) → 1 ≤ length (l.lzo1x_1_compress b)
  pub lzma_filled :
      (level dictsize : ℕ) (fb : Option ℕ) (num_threads size : ℕ) (b bytes props : List ℕ)
      → l.lzma_compress level dictsize fb num_threads size b ≡ sz_ok bytes props
      → 1 ≤ length bytes

-- A block as `compthread` takes it up.
pub record IsBlock (cti : CompressThread) : Type 0 where
  pub s_len : cti.s_len ≡ length cti.s_buf
  pub c_len : cti.c_len ≡ length cti.s_buf
  pub c_type : cti.c_type ≡ ctype_none

-- The block as the reader has it.
abbrev pub as_stored : CompressThread → UncompThread
as_stored cti = record {
  s_buf = cti.s_buf;
  c_len = cti.c_len;
  u_len = cti.s_len;
  c_type = cti.c_type;
}

-- The reader's properties cover those that the threads have published, if any.
abbrev pub Serves : List ℕ → SharedControl → Type 0
Serves q c = c.lzma_prop_set ≡ true → CoversProps q c.lzma_properties

-- With such properties and memory for the result, the reader restores `b` from `bytes`.
abbrev pub Decodes : Libs → SharedControl → List ℕ → ℕ → List ℕ → Type 0
Decodes l c b c_type bytes =
    (malloc : Malloc) (page_size : ℕ) (q : List ℕ)
    → malloc (round_up_page page_size (length b)) ≡ true
    → Serves q c
    → ucompress l malloc page_size q
        (record { s_buf = bytes; c_len = length bytes; u_len = length b; c_type = c_type })
      ≡ some b

-- A block that a library made smaller, of a type that the reader knows and from which it restores
-- `b`.
pub record IsPacked (l : Libs) (c : SharedControl) (b : List ℕ) (cti : CompressThread)
    : Type 0 where
  pub s_len : cti.s_len ≡ length b
  pub len : cti.c_len ≡ length cti.s_buf
  pub filled : 1 ≤ cti.c_len
  pub smaller : cti.c_len < length b
  pub from : 4 ≤ cti.c_type
  pub upto : cti.c_type ≤ 14
  pub restores : Decodes l c b cti.c_type cti.s_buf

-- A block is left as it was, or it is packed and the function returns 0.
abbrev pub Outcome : Libs → CompressThread → Ret → Type 0
Outcome l cti r = (r.cti ≡ cti) ⊎ ((r.ok ≡ true) × IsPacked l r.control cti.s_buf r.cti)

pub inflated_lem :
    (malloc : Malloc) (page_size dlen u_len : ℕ) (b : List ℕ) (bytes : Option (List ℕ))
    → malloc (round_up_page page_size dlen) ≡ true
    → bytes ≡ some b
    → length b ≡ u_len
    → inflated malloc page_size dlen u_len bytes ≡ some b
inflated_lem malloc page_size dlen u_len b bytes m e len =
    let same : (length b == u_len) ≡ true = ==_refl _ _ len in rw (m, e, same)

-- All of the stored bytes are the compressed ones.
pub whole : (bytes : List ℕ) → take (length bytes) bytes ≡ bytes
whole bytes = take-all (length bytes) bytes (omega arith)

module _ {l : Libs} (cti : CompressThread) (block : IsBlock cti) where
  pub replaced-Outcome :
      (c_type : ℕ) (bytes : List ℕ) (c : SharedControl)
      → 4 ≤ c_type
      → c_type ≤ 14
      → 1 ≤ length bytes
      → length bytes < cti.c_len
      → Decodes l c cti.s_buf c_type bytes
      → Outcome l cti (replaced c_type bytes cti c)
  replaced-Outcome c_type bytes c from upto filled less dec = inr (
    refl,
    record {
      s_len = block.s_len;
      len = refl;
      filled = filled;
      smaller = omega (arith, block.c_len);
      from = from;
      upto = upto;
      restores = dec;
    },
  )

  pub if_smaller-Outcome :
      (c_type : ℕ) (bytes : List ℕ) (c : SharedControl)
      → 4 ≤ c_type
      → c_type ≤ 14
      → 1 ≤ length bytes
      → (length bytes < cti.c_len → Decodes l c cti.s_buf c_type bytes)
      → Outcome l cti (replaced_if_smaller c_type bytes cti c)
  if_smaller-Outcome c_type bytes c from upto filled dec =
      elim (Bool-cases (leb cti.c_len (length bytes))) [
        | inl e ↦ rw e (inl refl)
        | inr e ↦
            rw e
              (replaced-Outcome c_type bytes c from upto filled (ground arith) (dec (ground arith)))
      ]

  pub coded-Outcome :
      (c_type : ℕ) (c : SharedControl) (r : Coded)
      → 4 ≤ c_type
      → c_type ≤ 14
      → ((bytes : List ℕ) → r ≡ coded bytes → 1 ≤ length bytes)
      → ((bytes : List ℕ)
          → r ≡ coded bytes
          → length bytes < cti.c_len
          → Decodes l c cti.s_buf c_type bytes)
      → Outcome l cti (take_coded c_type cti c r)
  coded-Outcome c_type c (coded bytes) from upto filled dec =
      if_smaller-Outcome c_type bytes c from upto (filled bytes refl) (dec bytes refl)
  coded-Outcome c_type c outbuff_full from upto filled dec = inl refl
  coded-Outcome c_type c failed from upto filled dec = inl refl

  pub tested-Outcome :
      (malloc : Malloc) (size : ℕ) (t : Bool × SharedControl) (pack : SharedControl → Ret)
      → Outcome l cti (pack t.1)
      → Outcome l cti (tested malloc size cti t pack)
  tested-Outcome malloc size (false, c) pack h = inl refl
  tested-Outcome malloc size (true, c) pack h = elim (Bool-cases (malloc size)) [
    | inl e ↦ rw e h
    | inr e ↦ rw e (inl refl)
  ]

module _ {l : Libs} (inv : Inverse l) (c : SharedControl) (b : List ℕ) where
  pub zpaq-Decodes : (level : ℕ) → Decodes l c b ctype_zpaq (l.zpaq_compress level b)
  unfolding ucompress zpaq_decompress_buf
  zpaq-Decodes level malloc page_size q m h =
      inflated_lem malloc page_size (length b) (length b) b _ m
        (rw (whole (l.zpaq_compress level b)) (inv.zpaq level (length b) b (omega arith))) refl

  pub gzip-Decodes :
      (level size : ℕ) (bytes : List ℕ)
      → l.z_compress2 level size b ≡ coded bytes
      → Decodes l c b ctype_gzip bytes
  unfolding ucompress gzip_decompress_buf
  gzip-Decodes level size bytes e malloc page_size q m h =
      inflated_lem malloc page_size (length b) (length b) b _ m
        (rw (whole bytes) (inv.gzip level size (length b) b bytes e (omega arith))) refl

  pub lzo-Decodes : Decodes l c b ctype_lzo (l.lzo1x_1_compress b)
  unfolding ucompress lzo_decompress_buf
  lzo-Decodes malloc page_size q m h =
      inflated_lem malloc page_size (length b) (length b) b _ m
        (rw (whole (l.lzo1x_1_compress b)) (inv.lzo (length b) b (omega arith))) refl

  pub bzip2-Decodes :
      (level size : ℕ) (bytes : List ℕ)
      → length b < 2 ^ 32
      → length bytes < length b
      → l.bz_compress level size (take (u32 (length b)) b) ≡ coded bytes
      → Decodes l c b ctype_bzip2 bytes
  unfolding ucompress bzip2_decompress_buf
  bzip2-Decodes level size bytes small less e malloc page_size q m h =
      let n : length b % 2 ^ 32 ≡ length b = omega arith in
      let k : length bytes % 2 ^ 32 ≡ length bytes = omega arith in
      rw (n, k, whole bytes)
        (inflated_lem malloc page_size (length b) (length b) b _ m
          (inv.bzip2 level size (length b) b bytes (rw (n, whole b) at e) (omega arith)) refl)
