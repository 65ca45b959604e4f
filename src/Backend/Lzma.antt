-- ===== src/Backend/Lzma.antt =====
-- stream.c, `lzma_compress_buf`: the prefilter, the attempts with ever less memory, and the
-- properties that the blocks of an archive share.
use lrzip.Common.{
  ℕ, zero, suc, ◌+◌, ◌-◌, ◌*◌, ◌/◌, ◌^◌, ◌<◌, ◌≡◌, refl, ap, min, arith, Bool-cases, inl, inr, Bool,
  true, false, not, ◌&&◌, ◌||◌, Option, none, some, List, length, get_or, ltb, leb, ◌==◌,
  if◌then◌else◌,
}
use native.Mathlib.Nat.{pow-suc}
use lrzip.Memory.{round_up_page, lzma_level}
use lrzip.Backend.Types.{
  Libs, Malloc, Settings, SharedControl, CompressThread, Ret, LzmaRet, sz_ok, sz_error_mem,
  sz_error_output_eof, sz_error, ctype_lzma, ctype_lzma_bcj, lrz_filter_none, lrz_filter_x86,
}
use lrzip.Backend.Filter.{filter_convert_mem}
use lrzip.Backend.Filter.Trial.{stream_filter_pick}
use lrzip.Backend.Lz4.{lz4_compresses}
use lrzip.Backend.Codecs.{unchanged, replaced, bzip2_compress_buf}

-- Bytes 1 to 4 of the properties, little endian.
unfoldable pub dict_of : List ℕ → ℕ
dict_of props =
    get_or props 1 0
    + get_or props 2 0 * 2 ^ 8
    + get_or props 3 0 * 2 ^ 16
    + get_or props 4 0 * 2 ^ 24

-- "keep the largest so the decoder allocates enough window for every block"
unfoldable pub publish_properties : Settings → List ℕ → SharedControl → SharedControl
publish_properties s props c =
    if c.lzma_prop_set
    then if ltb (dict_of c.lzma_properties) (dict_of props)
      then record c { lzma_properties = props }
      else c
    else record c {
      lzma_properties = props;
      lzma_prop_set = true;
      magic_written = c.magic_written && not (s.tmp_outbuf && s.blocks_done == 0);
    }

-- How the attempts end: `malloc` fails, the library returns, or its last resort is bzip2.
pub data Attempts : Type 0 where
  no_buffer : Attempts
  returned : (r : LzmaRet) → Attempts
  fall_back : Attempts

abbrev pub min_dictsize : ℕ
min_dictsize = 2 ^ 20

abbrev pub initial_level : Settings → ℕ
initial_level s =
    if s.ultra
    then if s.compression_level == 0 then 1 else min s.compression_level 9
    else lzma_level s.compression_level

abbrev pub fast_bytes : Settings → Option ℕ
fast_bytes s = if s.ultra then some 273 else none

abbrev pub lzma_threads : Settings → ℕ
lzma_threads s = if ltb 1 s.threads || s.ultra then 2 else 1

-- What an error for want of memory changes: the shared dictionary is halved, or the level lowered.
abbrev pub shrink_dict : SharedControl → SharedControl
shrink_dict c =
    if ltb min_dictsize c.lzma_dictsize then record c { lzma_dictsize = c.lzma_dictsize / 2 } else c

abbrev pub shrink_level : SharedControl → ℕ → ℕ
shrink_level c level = if ltb min_dictsize c.lzma_dictsize then level else level - 1

-- After a return of `LzmaCompress`; `again` is the next attempt.
abbrev pub after_return :
    SharedControl
    → ℕ
    → Option (Attempts × SharedControl)
    → LzmaRet
    → Option (Attempts × SharedControl)
after_return c level again sz_error_mem =
    if ltb min_dictsize c.lzma_dictsize || ltb 1 level then again else some (fall_back, c)
after_return c level again r = some (returned r, c)

after_return-some :
    (c : SharedControl) (level : ℕ) (again : Option (Attempts × SharedControl)) (r : LzmaRet)
    → ((ltb min_dictsize c.lzma_dictsize || ltb 1 level) ≡ true
        → (a : Attempts × SharedControl) × (again ≡ some a))
    → (a : Attempts × SharedControl) × (after_return c level again r ≡ some a)
after_return-some c level again (sz_ok bytes props) h = (_, refl)
after_return-some c level again (sz_error_output_eof len) h = (_, refl)
after_return-some c level again sz_error h = (_, refl)
after_return-some c level again sz_error_mem h =
    elim (Bool-cases (ltb min_dictsize c.lzma_dictsize || ltb 1 level)) [
      | inl e ↦ rw e (h e)
      | inr e ↦ rw e (_, refl)
    ]

module _ (l : Libs) (malloc : Malloc) (s : Settings) where
  -- From the label `retry` on.
  unfoldable pub lzma_attempts : ℕ → List ℕ → SharedControl → ℕ → Option (Attempts × SharedControl)
  lzma_attempts zero buf c level = none
  lzma_attempts (suc fuel) buf c level =
      let again = lzma_attempts fuel buf (shrink_dict c) (shrink_level c level) in
      let dlen = round_up_page s.page_size (length buf) in
      if not (malloc dlen)
      then some (no_buffer, c)
      else after_return c level again
          (l.lzma_compress level c.lzma_dictsize (fast_bytes s) (lzma_threads s) dlen buf)

  -- Twelve halvings take a 32-bit dictionary size to the smallest, and then each level is tried.
  unfoldable pub all_attempts : List ℕ → SharedControl → Option (Attempts × SharedControl)
  all_attempts buf c = lzma_attempts (initial_level s + 13) buf c (initial_level s)

  -- "undo any in place filter conversion"
  abbrev pub restore_filter : ℕ → List ℕ → CompressThread → CompressThread
  restore_filter filter buf cti = record cti {
    s_buf = if filter == lrz_filter_none then cti.s_buf else filter_convert_mem l filter false buf;
  }

  abbrev pub ctype_of_filter : ℕ → ℕ
  ctype_of_filter filter =
      if filter == lrz_filter_none then ctype_lzma else ctype_lzma_bcj + filter - lrz_filter_x86

  -- What follows the attempts on `buf`, which is the block through `filter`.
  unfoldable pub after_attempts : ℕ → List ℕ → CompressThread → SharedControl → Attempts → Ret
  after_attempts filter buf cti c no_buffer = unchanged false (restore_filter filter buf cti) c
  after_attempts filter buf cti c fall_back =
      bzip2_compress_buf l malloc s c (restore_filter filter buf cti)
  after_attempts filter buf cti c (returned sz_error_mem) =
      unchanged false (restore_filter filter buf cti) c
  after_attempts filter buf cti c (returned (sz_error_output_eof len)) =
      unchanged true (restore_filter filter buf cti) c
  after_attempts filter buf cti c (returned sz_error) =
      unchanged false (restore_filter filter buf cti) c
  after_attempts filter buf cti c (returned (sz_ok bytes props)) =
      if leb cti.c_len (length bytes)
      then unchanged true (restore_filter filter buf cti) c
      else replaced (ctype_of_filter filter) bytes cti (publish_properties s props c)

  -- "the block layer stands down" for a chunk that was filtered before rzip.
  abbrev pub block_filter : List ℕ → ℕ
  block_filter buf =
      if s.chunk_filter == lrz_filter_none
      then stream_filter_pick l malloc s.filter_mode buf
      else lrz_filter_none

  abbrev pub through_filter : ℕ → List ℕ → List ℕ
  through_filter filter buf =
      if filter == lrz_filter_none then buf else filter_convert_mem l filter true buf

  -- The attempts end, so the last clause is never met.
  unfoldable pub lzma_result :
      ℕ → List ℕ → CompressThread → SharedControl → Option (Attempts × SharedControl) → Ret
  lzma_result filter buf cti c (some (a, after)) = after_attempts filter buf cti after a
  lzma_result filter buf cti c none = unchanged false (restore_filter filter buf cti) c

  abbrev pub lzma_block : CompressThread → Bool × SharedControl → Ret
  lzma_block cti (false, c) = unchanged true cti c
  lzma_block cti (true, c) =
      let filter = block_filter cti.s_buf in
      let buf = through_filter filter cti.s_buf in lzma_result filter buf cti c (all_attempts buf c)

  unfoldable pub lzma_compress_buf : SharedControl → CompressThread → Ret
  lzma_compress_buf control cti = lzma_block cti (lz4_compresses l malloc s control cti.s_buf)

  -- One attempt more than there are halvings and levels left is enough.
  lzma_attempts-some :
      (halvings fuel : ℕ) (buf : List ℕ) (c : SharedControl) (level : ℕ)
      → c.lzma_dictsize < 2 ^ 20 * 2 ^ halvings
      → halvings + level < fuel
      → (a : Attempts × SharedControl) × (lzma_attempts fuel buf c level ≡ some a)
  unfolding lzma_attempts
  lzma_attempts-some halvings zero buf c level small enough = absurd (omega arith)
  lzma_attempts-some halvings (suc fuel) buf c level small enough =
      elim (Bool-cases (malloc (round_up_page s.page_size (length buf)))) [
        | inl e ↦ rw e (
            after_return-some c level _ _
              (next halvings small enough (λ h c' lv. lzma_attempts-some h fuel buf c' lv)))
        | inr e ↦ rw e (_, refl)
      ]
    where
      Returns : SharedControl → ℕ → Type 0
      Returns c' lv = (a : Attempts × SharedControl) × (lzma_attempts fuel buf c' lv ≡ some a)

      next :
          (h : ℕ)
          → c.lzma_dictsize < 2 ^ 20 * 2 ^ h
          → h + level < suc fuel
          → ((k : ℕ) (c' : SharedControl) (lv : ℕ)
              → c'.lzma_dictsize < 2 ^ 20 * 2 ^ k
              → k + lv < fuel
              → Returns c' lv)
          → (ltb min_dictsize c.lzma_dictsize || ltb 1 level) ≡ true
          → Returns (shrink_dict c) (shrink_level c level)
      next zero small enough ih more =
          let e : ltb min_dictsize c.lzma_dictsize ≡ false = ground arith in
          rw e (ih 0 c (level - 1) small (ground arith))
      next (suc k) small enough ih more = elim (Bool-cases (ltb min_dictsize c.lzma_dictsize)) [
        | inl e ↦
            rw e (ih k _ level (omega (arith, ap (λ t. 2 ^ 20 * t) (pow-suc 2 k))) (omega arith))
        | inr e ↦ rw e (ih (suc k) c (level - 1) small (ground arith))
      ]

  -- With a 32-bit dictionary size, the attempts to compress a block with LZMA end, whatever the
  -- library and the memory are: the dictionary is halved down to 1 MiB, then the level lowered.
  pub all_attempts-some :
      (buf : List ℕ) (c : SharedControl)
      → c.lzma_dictsize < 2 ^ 32
      → (a : Attempts × SharedControl) × (all_attempts buf c ≡ some a)
  unfolding all_attempts
  all_attempts-some buf c small =
      lzma_attempts-some 12 (initial_level s + 13) buf c (initial_level s) (omega arith)
        (omega arith)
