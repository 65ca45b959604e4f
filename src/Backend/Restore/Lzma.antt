-- ===== src/Backend/Restore/Lzma.antt =====
-- stream.c, `lzma_compress_buf` and `lzma_decompress_buf`: a block through a prefilter comes back.
use lrzip.Common.{
  ℕ, ◌+◌, ◌-◌, ◌≤◌, ◌<◌, ◌^◌, ◌≡◌, refl, sym, ap, ◌∙◌, arith, Bool, true, false, ◌&&◌, Option, none,
  some, List, length, leb, ◌==◌, Bool-cases, inl, inr,
}
use lrzip.Backend.Types.{
  Libs, Malloc, Settings, SharedControl, CompressThread, sz_ok, sz_error_mem, sz_error_output_eof,
  sz_error, FilterMode, off, fixed, auto, lrz_filter_none, lrz_filter_x86, lrz_filter_max,
  UncompThread, ctype_none, ctype_lzma, ctype_lzma_bcj, ctype_lzma_delta4,
}
use lrzip.Backend.Filter.{filter_convert_mem, filter_convert_mem-inverse, length-filter_convert_mem}
use lrzip.Backend.Filter.Trial.{stream_filter_pick, filter_trial_bounded}
use lrzip.Backend.Lz4.{lz4_compresses}
use lrzip.Backend.Lzma.{
  Attempts, no_buffer, returned, fall_back, publish_properties, ctype_of_filter, through_filter,
  restore_filter, after_attempts, block_filter, all_attempts, lzma_result, lzma_block,
  lzma_compress_buf, initial_level,
}
use lrzip.Backend.Codecs.{unchanged}
use lrzip.Backend.Uncomp.{ucompress, lzma_decompress_buf, ctype_filter_kind}
use lrzip.Backend.Packed.{
  CoversProps, Inverse, IsBlock, Decodes, inflated_lem, whole, replaced-Outcome,
}
use lrzip.Backend.Restore.{bzip2_compress_buf-Outcome}
use lrzip.Backend.Shared.{
  CoversProps-trans, IsShared, SameProps, SameProps-Grows, SameProps-IsShared,
  publish_properties-Grows, IsResult, AreAttempts, lzma_attempts-AreAttempts, bzip2-SameProps,
  SameProps-refl, Compresses, SameProps-Compresses, Grows-trans, lz4_compresses-SameProps,
}

-- A setting of `--filter` names a filter that a block's type can record.
pub record IsMode (m : FilterMode) : Type 0 where
  pub bounded : (kind : ℕ) → m ≡ fixed kind → kind ≤ lrz_filter_max

-- The type of a filtered block tells the filter.
pub ctype_filter_kind-ctype_of_filter :
    (l : Libs) (malloc : Malloc) (s : Settings) (filter : ℕ)
    → filter ≤ lrz_filter_max
    → ctype_filter_kind (ctype_of_filter l malloc s filter) ≡ filter
unfolding ctype_filter_kind
ctype_filter_kind-ctype_of_filter l malloc s filter h = ground arith

ucompress_filtered :
    (l : Libs) (malloc : Malloc) (page_size : ℕ) (q b : List ℕ) (u : UncompThread)
    → 9 ≤ u.c_type
    → u.c_type ≤ 14
    → lzma_decompress_buf l malloc page_size q u ≡ some b
    → ucompress l malloc page_size q u
      ≡ some (filter_convert_mem l (ctype_filter_kind u.c_type) false b)
unfolding ucompress
ucompress_filtered l malloc page_size q b u from upto e =
    let stored : (u.c_type == ctype_none) ≡ false = ground arith in
    let plain : (u.c_type == ctype_lzma) ≡ false = ground arith in
    let filtered : (leb ctype_lzma_bcj u.c_type && leb u.c_type ctype_lzma_delta4) ≡ true =
      ground arith in
    rw (stored, plain, filtered, e) refl

module _ (l : Libs) (malloc : Malloc) (s : Settings) (inv : Inverse l) where
  stream_filter_pick_bounded :
      (m : FilterMode) (buf : List ℕ)
      → IsMode m
      → stream_filter_pick l malloc m buf ≤ lrz_filter_max
  unfolding stream_filter_pick
  stream_filter_pick_bounded off buf h = omega arith
  stream_filter_pick_bounded (fixed kind) buf h = h.bounded kind refl
  stream_filter_pick_bounded auto buf h = filter_trial_bounded l malloc buf

  block_filter_bounded :
      (buf : List ℕ) → IsMode s.filter_mode → block_filter l malloc s buf ≤ lrz_filter_max
  block_filter_bounded buf h = ground (arith, stream_filter_pick_bounded s.filter_mode buf h)

  -- A conversion that is undone leaves the block.
  restored :
      (filter : ℕ) (cti : CompressThread)
      → restore_filter l malloc s filter (through_filter l malloc s filter cti.s_buf) cti ≡ cti
  restored filter cti = elim (Bool-cases (filter == lrz_filter_none)) [
    | inl e ↦ rw e
    | inr e ↦ rw e (
        ap (λ t. record cti { s_buf = t })
          (filter_convert_mem-inverse l filter cti.s_buf inv.filters))
  ]

  lzma-Decodes :
      (c : SharedControl) (b : List ℕ) (filter level dict : ℕ) (fb : Option ℕ) (n size : ℕ)
      (bytes own : List ℕ)
      → filter ≤ lrz_filter_max
      → l.lzma_compress level dict fb n size (through_filter l malloc s filter b) ≡ sz_ok bytes own
      → c.lzma_prop_set ≡ true
      → CoversProps c.lzma_properties own
      → Decodes l c b (ctype_of_filter l malloc s filter) bytes
  unfolding ucompress lzma_decompress_buf
  lzma-Decodes c b filter level dict fb n size bytes own small e set cov m page q granted h =
      elim (Bool-cases (filter == lrz_filter_none)) [
        | inl z ↦ rw z (
            inflated_lem m page (length b) (length b) b _ granted
              (rw (whole bytes) (
                inv.lzma level dict fb n size (length b) b bytes own q (rw z at e)
                  (CoversProps-trans cov (h set)) (omega arith)))
              refl)
        | inr z ↦
            let buf = filter_convert_mem l filter true b in
            let t : ctype_of_filter l malloc s filter ≡ ctype_lzma_bcj + filter - lrz_filter_x86 =
              ground arith in
            let k : ctype_filter_kind (ctype_lzma_bcj + filter - lrz_filter_x86) ≡ filter =
              ap ctype_filter_kind (sym t)
              ∙ ctype_filter_kind-ctype_of_filter l malloc s filter small in
            let len : length buf ≡ length b =
              length-filter_convert_mem l filter true b inv.filters in
            rw t (
              ucompress_filtered l m page q buf _ (ground arith) (ground arith) (
                inflated_lem m page (length b) (length b) buf _ granted
                  (rw (whole bytes) (
                    inv.lzma level dict fb n size (length b) buf bytes own q (rw z at e)
                      (CoversProps-trans cov (h set)) (omega arith)))
                  len)
              ∙ ap some (
                  ap (λ f. filter_convert_mem l f false buf) k
                  ∙ filter_convert_mem-inverse l filter b inv.filters))
      ]

  module _ (cti : CompressThread) (block : IsBlock cti) where
    -- What is left as it was, but for a filter that is undone.
    kept_block :
        (filter : ℕ) (ok : Bool) (d : SharedControl)
        → IsShared d
        → Compresses l d cti (
            unchanged ok
              (restore_filter l malloc s filter (through_filter l malloc s filter cti.s_buf) cti)
              d)
    kept_block filter ok d sh =
        SameProps-Compresses l d cti _ sh (inl (restored filter cti)) (SameProps-refl d)

    after_attempts-Compresses :
        (filter : ℕ) (d : SharedControl) (a : Attempts)
        → filter ≤ lrz_filter_max
        → length cti.s_buf < 2 ^ 32
        → IsShared d
        → IsResult l (through_filter l malloc s filter cti.s_buf) a
        → Compresses l d cti
            (after_attempts l malloc s filter (through_filter l malloc s filter cti.s_buf) cti d a)
    unfolding after_attempts
    after_attempts-Compresses filter d no_buffer bound small sh res = kept_block filter false d sh
    after_attempts-Compresses filter d fall_back bound small sh res = rw (restored filter cti) (
        SameProps-Compresses l d cti _ sh
          (bzip2_compress_buf-Outcome l malloc s inv cti block d small)
          (bzip2-SameProps l malloc s d cti))
    after_attempts-Compresses filter d (returned sz_error_mem) bound small sh res =
        kept_block filter false d sh
    after_attempts-Compresses filter d (returned (sz_error_output_eof len)) bound small sh res =
        kept_block filter true d sh
    after_attempts-Compresses filter d (returned sz_error) bound small sh res =
        kept_block filter false d sh
    after_attempts-Compresses filter d (returned (sz_ok bytes props)) bound small sh
          (level, dict, fb, n, size, e) =
        elim (Bool-cases (leb cti.c_len (length bytes))) [
          | inl big ↦ rw big (kept_block filter true d sh)
          | inr less ↦
              let (shared, grows, set, covers) = publish_properties-Grows s props d sh (
                inv.lzma_props level dict fb n size (through_filter l malloc s filter cti.s_buf)
                  bytes props e) in
              rw less (record {
                outcome =
                    replaced-Outcome cti block (ctype_of_filter l malloc s filter) bytes
                      (publish_properties s props d) (ground arith) (ground arith)
                      (inv.lzma_filled level dict fb n size
                        (through_filter l malloc s filter cti.s_buf) bytes props e)
                      (ground arith)
                      (lzma-Decodes (publish_properties s props d) cti.s_buf filter level dict fb n
                        size bytes props bound e set covers);
                shared = shared;
                grows = grows;
              })
        ]

    lzma_result-Compresses :
        (filter : ℕ) (c : SharedControl) (r : Option (Attempts × SharedControl))
        → filter ≤ lrz_filter_max
        → length cti.s_buf < 2 ^ 32
        → IsShared c
        → AreAttempts l (through_filter l malloc s filter cti.s_buf) c r
        → Compresses l c cti
            (lzma_result l malloc s filter (through_filter l malloc s filter cti.s_buf) cti c r)
    unfolding lzma_result
    lzma_result-Compresses filter c none bound small sh h = kept_block filter false c sh
    lzma_result-Compresses filter c (some (a, d)) bound small sh (same, res) =
        let r = after_attempts-Compresses filter d a bound small (SameProps-IsShared same sh) res in
        record {
          outcome = r.outcome;
          shared = r.shared;
          grows = Grows-trans (SameProps-Grows same) r.grows;
        }

    lzma_block-Compresses :
        (c : SharedControl) (t : Bool × SharedControl)
        → IsMode s.filter_mode
        → length cti.s_buf < 2 ^ 32
        → IsShared c
        → SameProps c t.1
        → Compresses l c cti (lzma_block l malloc s cti t)
    unfolding all_attempts
    lzma_block-Compresses c (false, d) mode small sh same =
        SameProps-Compresses l c cti _ sh (inl refl) same
    lzma_block-Compresses c (true, d) mode small sh same =
        let filter = block_filter l malloc s cti.s_buf in
        let r =
          lzma_result-Compresses filter d _ (block_filter_bounded cti.s_buf mode) small
            (SameProps-IsShared same sh)
            (lzma_attempts-AreAttempts l malloc s (initial_level s + 13)
              (through_filter l malloc s filter cti.s_buf) d (initial_level s)) in
        record {
          outcome = r.outcome;
          shared = r.shared;
          grows = Grows-trans (SameProps-Grows same) r.grows;
        }

    pub lzma_compress_buf-Compresses :
        (c : SharedControl)
        → IsMode s.filter_mode
        → length cti.s_buf < 2 ^ 32
        → IsShared c
        → Compresses l c cti (lzma_compress_buf l malloc s c cti)
    unfolding lzma_compress_buf
    lzma_compress_buf-Compresses c mode small sh =
        lzma_block-Compresses c (lz4_compresses l malloc s c cti.s_buf) mode small sh
          (lz4_compresses-SameProps l malloc s c cti.s_buf)
