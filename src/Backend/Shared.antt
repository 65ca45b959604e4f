-- ===== src/Backend/Shared.antt =====
-- stream.c: what the compression threads do to the LZMA properties that they share.
use lrzip.Common.{
  ℕ, zero, suc, ◌+◌, ◌/◌, ◌≡◌, refl, sym, ap, ◌∙◌, arith, Bool, true, false, ◌||◌, Option, none,
  some, List, length, get_or, take, ltb, Bool-cases, inl, inr,
}
use lrzip.Memory.{round_up_page}
use lrzip.Backend.Types.{
  Libs, Malloc, Settings, SharedControl, CompressThread, Ret, LzmaRet, sz_ok, sz_error_mem,
  sz_error_output_eof, sz_error, Coded, coded, outbuff_full, failed, ctype_bzip2, ctype_gzip,
  ctype_zpaq,
}
use lrzip.Backend.Lz4.{lz4_compresses}
use lrzip.Backend.Codecs.{
  replaced_if_smaller, take_coded, tested, u32, zpaq_compress_buf, bzip2_compress_buf,
  gzip_compress_buf, lzo_compress_buf,
}
use lrzip.Backend.Lzma.{
  Attempts, returned, dict_of, publish_properties, shrink_dict, shrink_level, after_return,
  lzma_attempts, min_dictsize, fast_bytes, lzma_threads,
}
use lrzip.Backend.Packed.{CoversProps, Outcome}

pub CoversProps-trans : {p q r : List ℕ} → CoversProps q p → CoversProps r q → CoversProps r p
CoversProps-trans h k = record {
  lclppb = k.lclppb ∙ h.lclppb;
  window = omega (arith, h.window, k.window);
}

-- Once the properties are set, they begin with the byte for the default lc, lp and pb.
pub record IsShared (c : SharedControl) : Type 0 where
  pub lclppb : c.lzma_prop_set ≡ true → get_or c.lzma_properties 0 0 ≡ 93

-- Properties that are set stay set, and what covers the new ones covers the old.
pub record Grows (before after : SharedControl) : Type 0 where
  pub set : before.lzma_prop_set ≡ true → after.lzma_prop_set ≡ true
  pub covers :
      before.lzma_prop_set ≡ true → CoversProps after.lzma_properties before.lzma_properties

pub CoversProps-refl : (p : List ℕ) → CoversProps p p
CoversProps-refl p = record { lclppb = refl; window = omega arith }

-- The properties are what they were.
pub record SameProps (before after : SharedControl) : Type 0 where
  pub set : after.lzma_prop_set ≡ before.lzma_prop_set
  pub props : after.lzma_properties ≡ before.lzma_properties

pub SameProps-refl : (c : SharedControl) → SameProps c c
SameProps-refl c = record { set = refl; props = refl }

pub SameProps-trans : {a b c : SharedControl} → SameProps a b → SameProps b c → SameProps a c
SameProps-trans h k = record { set = k.set ∙ h.set; props = k.props ∙ h.props }

pub SameProps-Grows : {c d : SharedControl} → SameProps c d → Grows c d
SameProps-Grows {c} {d} h = record {
  set = λ e. h.set ∙ e;
  covers = λ e. record {
    lclppb = ap (λ t. get_or t 0 0) h.props;
    window = omega (arith, ap dict_of h.props);
  };
}

pub SameProps-IsShared : {c d : SharedControl} → SameProps c d → IsShared c → IsShared d
SameProps-IsShared h k = record {
  lclppb = λ e. ap (λ t. get_or t 0 0) h.props ∙ k.lclppb (sym h.set ∙ e);
}

-- Where the shared properties, once set, have the default lc, lp and pb, and a block's have them
-- too, `publish_properties` leaves properties that are set, have them, and cover the block's as
-- well as those that were set before: the window never gets smaller.
pub publish_properties-Grows :
    (s : Settings) (props : List ℕ) (c : SharedControl)
    → IsShared c
    → get_or props 0 0 ≡ 93
    → IsShared (publish_properties s props c)
      × Grows c (publish_properties s props c)
      × ((publish_properties s props c).lzma_prop_set ≡ true)
      × CoversProps (publish_properties s props c).lzma_properties props
unfolding publish_properties
publish_properties-Grows s props c h e = elim (Bool-cases c.lzma_prop_set) [
  | inl set ↦ simp set (elim (Bool-cases (ltb (dict_of c.lzma_properties) (dict_of props))) [
    | inl more ↦ simp more (
      record { lclppb = λ q. e },
      record {
        set = λ q. refl;
        covers = λ q. record { lclppb = e ∙ sym (h.lclppb set); window = ground arith };
      },
      refl,
      CoversProps-refl props,
    )
    | inr less ↦ simp less (
      h,
      record { set = λ q. q; covers = λ q. CoversProps-refl c.lzma_properties },
      set,
      record { lclppb = h.lclppb set ∙ sym e; window = ground arith },
    )
  ])
  | inr unset ↦ simp unset (
    record { lclppb = λ q. e },
    record { set = λ q. refl; covers = λ q. absurd (cc) },
    refl,
    CoversProps-refl props,
  )
]

pub lz4_compresses-SameProps :
    (l : Libs) (malloc : Malloc) (s : Settings) (c : SharedControl) (buf : List ℕ)
    → SameProps c (lz4_compresses l malloc s c buf).1
unfolding lz4_compresses
lz4_compresses-SameProps l malloc s c buf = record { set = ground arith; props = ground arith }

-- The codecs but LZMA share nothing but the result of the test of lz4.
tested-SameProps :
    (c : SharedControl) (malloc : Malloc) (size : ℕ) (cti : CompressThread)
    (t : Bool × SharedControl) (pack : SharedControl → Ret)
    → SameProps c t.1
    → (pack t.1).control ≡ t.1
    → SameProps c (tested malloc size cti t pack).control
tested-SameProps c malloc size cti (false, d) pack h e = h
tested-SameProps c malloc size cti (true, d) pack h e = elim (Bool-cases (malloc size)) [
  | inl m ↦ rw (m, e) h
  | inr m ↦ rw m h
]

take_coded_control :
    (c_type : ℕ) (cti : CompressThread) (c : SharedControl) (r : Coded)
    → (take_coded c_type cti c r).control ≡ c
take_coded_control c_type cti c (coded bytes) = ground arith
take_coded_control c_type cti c outbuff_full = refl
take_coded_control c_type cti c failed = refl

-- What `lzma_attempts` returns: properties as they were, and bytes that come from the library.
abbrev pub IsResult : Libs → List ℕ → Attempts → Type 0
IsResult l buf (returned (sz_ok bytes props)) =
    (level : ℕ) × (dict : ℕ) × (fb : Option ℕ) × (n : ℕ) × (size : ℕ) × (l.lzma_compress level dict
        fb n size buf
      ≡ sz_ok bytes props)
IsResult l buf other = Unit

abbrev pub AreAttempts : Libs → List ℕ → SharedControl → Option (Attempts × SharedControl) → Type 0
AreAttempts l buf c none = Unit
AreAttempts l buf c (some (a, d)) = SameProps c d × IsResult l buf a

AreAttempts-trans :
    (l : Libs) (buf : List ℕ) {c d : SharedControl} (r : Option (Attempts × SharedControl))
    → SameProps c d
    → AreAttempts l buf d r
    → AreAttempts l buf c r
AreAttempts-trans l buf none h k = tt
AreAttempts-trans l buf (some (a, e)) h k = (SameProps-trans h k.0, k.1)

shrink_dict-SameProps : (c : SharedControl) → SameProps c (shrink_dict c)
shrink_dict-SameProps c = record { set = ground arith; props = ground arith }

module _ (l : Libs) (malloc : Malloc) (s : Settings) where
  after_return-AreAttempts :
      (buf : List ℕ) (c : SharedControl) (level size : ℕ)
      (again : Option (Attempts × SharedControl)) (r : LzmaRet)
      → l.lzma_compress level c.lzma_dictsize (fast_bytes s) (lzma_threads s) size buf ≡ r
      → AreAttempts l buf c again
      → AreAttempts l buf c (after_return c level again r)
  after_return-AreAttempts buf c level size again (sz_ok bytes props) e h =
      (SameProps-refl c, (level, c.lzma_dictsize, fast_bytes s, lzma_threads s, size, e))
  after_return-AreAttempts buf c level size again (sz_error_output_eof len) e h =
      (SameProps-refl c, tt)
  after_return-AreAttempts buf c level size again sz_error e h = (SameProps-refl c, tt)
  after_return-AreAttempts buf c level size again sz_error_mem e h =
      elim (Bool-cases (ltb min_dictsize c.lzma_dictsize || ltb 1 level)) [
        | inl more ↦ simp more h
        | inr less ↦ simp less (SameProps-refl c, tt)
      ]

  pub lzma_attempts-AreAttempts :
      (fuel : ℕ) (buf : List ℕ) (c : SharedControl) (level : ℕ)
      → AreAttempts l buf c (lzma_attempts l malloc s fuel buf c level)
  unfolding lzma_attempts
  lzma_attempts-AreAttempts zero buf c level = tt
  lzma_attempts-AreAttempts (suc fuel) buf c level =
      elim (Bool-cases (malloc (round_up_page s.page_size (length buf)))) [
        | inl m ↦ rw m (
            after_return-AreAttempts buf c level (round_up_page s.page_size (length buf)) _ _ refl (
              AreAttempts-trans l buf
                (lzma_attempts l malloc s fuel buf (shrink_dict c) (shrink_level c level))
                (shrink_dict-SameProps c)
                (lzma_attempts-AreAttempts fuel buf (shrink_dict c) (shrink_level c level))))
        | inr m ↦ rw m (SameProps-refl c, tt)
      ]

  module _ (c : SharedControl) (cti : CompressThread) where
    pub zpaq-SameProps : SameProps c (zpaq_compress_buf l malloc s c cti).control
    unfolding zpaq_compress_buf
    zpaq-SameProps =
        tested-SameProps c malloc _ cti (lz4_compresses l malloc s c cti.s_buf)
          (replaced_if_smaller ctype_zpaq (l.zpaq_compress (s.compression_level / 4 + 1) cti.s_buf)
            cti)
          (lz4_compresses-SameProps l malloc s c cti.s_buf) (ground arith)

    pub gzip-SameProps : SameProps c (gzip_compress_buf l malloc s c cti).control
    unfolding gzip_compress_buf
    gzip-SameProps =
        let size = round_up_page s.page_size cti.s_len in
        let r = l.z_compress2 s.compression_level size cti.s_buf in
        elim (Bool-cases (malloc size)) [
          | inl m ↦ rw (m, take_coded_control ctype_gzip cti c r) (SameProps-refl c)
          | inr m ↦ rw m (SameProps-refl c)
        ]

    pub bzip2-SameProps : SameProps c (bzip2_compress_buf l malloc s c cti).control
    unfolding bzip2_compress_buf
    bzip2-SameProps =
        let r =
          l.bz_compress s.compression_level (u32 (round_up_page s.page_size cti.s_len))
            (take (u32 cti.s_len) cti.s_buf) in
        tested-SameProps c malloc _ cti (lz4_compresses l malloc s c cti.s_buf)
          (λ k. take_coded ctype_bzip2 cti k r) (lz4_compresses-SameProps l malloc s c cti.s_buf)
          (take_coded_control ctype_bzip2 cti _ r)

    pub lzo-SameProps : SameProps c (lzo_compress_buf l malloc s c cti).control
    unfolding lzo_compress_buf
    lzo-SameProps = record { set = ground arith; props = ground arith }

-- A call of a compression function: the block, and the properties that the threads share.
pub record Compresses (l : Libs) (before : SharedControl) (cti : CompressThread) (r : Ret)
    : Type 0 where
  pub outcome : Outcome l cti r
  pub shared : IsShared r.control
  pub grows : Grows before r.control

pub SameProps-Compresses :
    (l : Libs) (c : SharedControl) (cti : CompressThread) (r : Ret)
    → IsShared c
    → Outcome l cti r
    → SameProps c r.control
    → Compresses l c cti r
SameProps-Compresses l c cti r sh o h = record {
  outcome = o;
  shared = SameProps-IsShared h sh;
  grows = SameProps-Grows h;
}

pub Grows-trans : {a b c : SharedControl} → Grows a b → Grows b c → Grows a c
Grows-trans h k = record {
  set = λ e. k.set (h.set e);
  covers = λ e. CoversProps-trans (h.covers e) (k.covers (h.set e));
}
