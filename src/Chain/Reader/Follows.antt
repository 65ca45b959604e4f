-- ===== src/Chain/Reader/Follows.antt =====
-- stream.c: from a stream's first header, `fill_buffer` finds its blocks in order.
use lrzip.Common.{
  ℕ, suc, ◌+◌, ◌*◌, ◌^◌, ◌≤◌, ◌<◌, ◌≡◌, ◌⊎◌, refl, sym, ap, ◌∙◌, arith, true, false, not, ◌&&◌,
  ◌||◌, some, List, [], ◌∷◌, ◌++◌, length, get_or, take, drop, max, ltb, leb, ◌==◌, if◌then◌else◌,
  inl, inr, length-append, take-append, drop-append, drop-drop, append_assoc,
}
use lrzip.Common.Bytes.{le_bytes, length-le_bytes, from_le-le_bytes}
use lrzip.Backend.Types.{CompressThread, ctype_none, ctype_bzip2, ctype_lzma_delta4}
use lrzip.Chain.{block_header}
use lrzip.Chain.Layout.{Tagged, block_bytes}
use lrzip.Chain.Reader.{
  Limits, nonnegative, inside, BlockHeader, read_block_header, size_ok, header_ok,
}

-- The blocks of stream `j`.
abbrev pub blocks_of : ℕ → List Tagged → List CompressThread
blocks_of j [] = []
blocks_of j ((k, cti) ∷ bs) = if k == j then cti ∷ blocks_of j bs else blocks_of j bs

abbrev pub header_of : CompressThread → ℕ → BlockHeader
header_of cti link = record {
  c_type = cti.c_type;
  c_len = cti.c_len;
  u_len = cti.s_len;
  last_head = link;
}

-- The parts of a header that starts with a byte and three numbers of `w` bytes.
header_parts :
    (w t : ℕ) (a b c tail h : List ℕ)
    → h ≡ t ∷ (a ++ (b ++ (c ++ tail)))
    → length a ≡ w
    → length b ≡ w
    → length c ≡ w
    → (ltb (length h) (1 + w * 3) ≡ false)
      × (get_or h 0 0 ≡ t)
      × (take w (drop 1 h) ≡ a)
      × (take w (drop (1 + w) h) ≡ b)
      × (take w (drop (1 + w + w) h) ≡ c)
header_parts w t a b c tail h e ha hb hc =
    let d1 : 1 + w ≡ suc w = omega arith in
    let d2 : 1 + w + w ≡ suc (w + w) = omega arith in
    let after_a : drop w (a ++ (b ++ (c ++ tail))) ≡ b ++ (c ++ tail) = drop-append w a _ ha in
    let after_b : drop (w + w) (a ++ (b ++ (c ++ tail))) ≡ c ++ tail =
      sym (drop-drop w w (a ++ (b ++ (c ++ tail))))
      ∙ ap (drop w) after_a
      ∙ drop-append w b (c ++ tail) hb in
    let long : length h ≡ suc (w + (w + (w + length tail))) = omega (
      arith,
      ap length e,
      length-append a (b ++ (c ++ tail)),
      length-append b (c ++ tail),
      length-append c tail,
    ) in
    (
      ground arith,
      rw e refl,
      rw e (take-append w a _ ha),
      rw (e, d1, after_a) (take-append w b _ hb),
      rw (e, d2, after_b) (take-append w c tail hc),
    )

block_bytes_parts :
    (w link : ℕ) (cti : CompressThread) (rest : List ℕ)
    → block_bytes w cti link ++ rest
      ≡ cti.c_type
        ∷ (le_bytes w cti.c_len
            ++ (le_bytes w cti.s_len ++ (le_bytes w link ++ (cti.s_buf ++ rest))))
unfolding block_bytes block_header
block_bytes_parts w link cti rest =
    ap (λ t. cti.c_type ∷ t)
      (append_assoc (le_bytes w cti.c_len ++ (le_bytes w cti.s_len ++ le_bytes w link)) cti.s_buf
          rest
        ∙ append_assoc (le_bytes w cti.c_len) (le_bytes w cti.s_len ++ le_bytes w link)
            (cti.s_buf ++ rest)
        ∙ ap (λ t. le_bytes w cti.c_len ++ t)
            (append_assoc (le_bytes w cti.s_len) (le_bytes w link) (cti.s_buf ++ rest)))

pub read_block_header-block_bytes :
    (w pos link : ℕ) (cti : CompressThread) (body rest : List ℕ)
    → drop pos body ≡ block_bytes w cti link ++ rest
    → cti.c_len < 256 ^ w
    → cti.s_len < 256 ^ w
    → link < 256 ^ w
    → read_block_header w body pos ≡ some (header_of cti link)
unfolding read_block_header
read_block_header-block_bytes w pos link cti body rest e hc hs hl =
    let (long, t, a, b, c) =
      header_parts w cti.c_type (le_bytes w cti.c_len) (le_bytes w cti.s_len) (le_bytes w link)
        (cti.s_buf ++ rest) (drop pos body) (e ∙ block_bytes_parts w link cti rest)
        (length-le_bytes w cti.c_len) (length-le_bytes w cti.s_len) (length-le_bytes w link) in
    rw
      (
        long,
        t,
        a,
        b,
        c,
        from_le-le_bytes w cti.c_len hc,
        from_le-le_bytes w cti.s_len hs,
        from_le-le_bytes w link hl,
      )
      refl

-- What `fill_buffer` asks of a block, apart from its place.
pub record IsReadable (l : Limits) (cti : CompressThread) : Type 0 where
  pub c_len : cti.c_len ≡ length cti.s_buf
  pub filled : 1 ≤ cti.c_len
  pub no_longer : cti.c_len ≤ cti.s_len
  pub small : cti.s_len < 2 ^ 63
  pub width : cti.s_len < 256 ^ l.chunk_bytes
  pub ram : (l.maxram ≡ 0) ⊎ (cti.s_len ≤ l.maxram)
  pub from : 3 ≤ cti.c_type
  pub upto : cti.c_type ≤ 14
  pub stored : cti.c_type ≡ ctype_none → cti.c_len ≡ cti.s_len
  pub bzip2 : cti.c_type ≡ ctype_bzip2 → cti.s_len < 2 ^ 32

-- The blocks end where the frame and the file do, or before.
pub record Bounds (l : Limits) (body : List ℕ) : Type 0 where
  pub payload : (l.payload_end ≡ 0) ⊎ (l.initial_pos + length body ≤ l.payload_end)
  pub infile : (l.infile_size ≡ 0) ⊎ (l.initial_pos + length body ≤ l.infile_size)
  pub small : length body < 2 ^ 63
  pub width : length body < 256 ^ l.chunk_bytes

inside_lem :
    (base pos end len : ℕ)
    → pos < len
    → (end ≡ 0) ⊎ (base + len ≤ end)
    → inside (base + pos) end ≡ true
inside_lem base pos end len h (inl z) = ground arith
inside_lem base pos end len h (inr q) = ground arith

size_ok_lem :
    (n m maxram : ℕ)
    → 1 ≤ n
    → n ≤ m
    → m < 2 ^ 63
    → (maxram ≡ 0) ⊎ (m ≤ maxram)
    → size_ok n maxram ≡ true
unfolding size_ok
size_ok_lem n m maxram lo hi small (inl z) = ground arith
size_ok_lem n m maxram lo hi small (inr q) = ground arith

-- The link is none, or the position of a later block.
link_ok :
    (l : Limits) (body : List ℕ) (pos link : ℕ)
    → Bounds l body
    → (link ≡ 0) ⊎ ((pos < link) × (link < length body))
    → (link == 0
        || (nonnegative link
            && ltb pos link
            && inside (l.initial_pos + link) l.payload_end
            && inside (l.initial_pos + link) l.infile_size))
      ≡ true
link_ok l body pos link b (inl z) = ground arith
link_ok l body pos link b (inr (forward, within)) = ground (
  arith,
  b.small,
  inside_lem l.initial_pos link l.payload_end (length body) within b.payload,
  inside_lem l.initial_pos link l.infile_size (length body) within b.infile,
)

frame_ok :
    (l : Limits) (len n : ℕ)
    → n ≤ len
    → (l.payload_end ≡ 0) ⊎ (l.initial_pos + len ≤ l.payload_end)
    → (l.payload_end == 0 || leb (l.initial_pos + n) l.payload_end) ≡ true
frame_ok l len n h (inl z) = ground arith
frame_ok l len n h (inr q) = ground arith

pub header_ok-header_of :
    (l : Limits) (body : List ℕ) (pos total_read link : ℕ) (cti : CompressThread)
    → IsReadable l cti
    → Bounds l body
    → (link ≡ 0) ⊎ ((pos < link) × (link < length body))
    → total_read + cti.c_len ≤ length body
    → header_ok l pos total_read (header_of cti link) ≡ true
unfolding header_ok
header_ok-header_of l body pos total_read link cti r b place room =
    let e : l.initial_pos + total_read + cti.c_len ≡ l.initial_pos + (total_read + cti.c_len) =
      omega arith in
    let m : max cti.s_len cti.c_len ≡ cti.s_len = omega (arith, r.no_longer) in
    let known : (leb ctype_none cti.c_type && leb cti.c_type ctype_lzma_delta4) ≡ true =
      ground (arith, r.from, r.upto) in
    let some_bytes : (leb 1 cti.c_len
          && nonnegative cti.c_len
          && leb 1 cti.s_len
          && nonnegative cti.s_len)
        ≡ true =
      ground (arith, r.filled, r.no_longer, r.small) in
    let same : (not (cti.c_type == ctype_none) || cti.c_len == cti.s_len) ≡ true =
      ground (arith, r.stored) in
    let api : (not (cti.c_type == ctype_bzip2)
          || (ltb cti.s_len (2 ^ 32) && ltb cti.c_len (2 ^ 32)))
        ≡ true =
      ground (arith, r.bzip2, r.no_longer) in
    rw
      (
        some_bytes,
        link_ok l body pos link b place,
        known,
        same,
        size_ok_lem cti.c_len cti.s_len l.maxram r.filled r.no_longer r.small r.ram,
        size_ok_lem cti.s_len cti.s_len l.maxram (omega (arith, r.filled, r.no_longer))
            (omega arith) r.small r.ram,
        api,
        e,
        frame_ok l (length body) (total_read + cti.c_len) room b.payload,
        m,
        size_ok_lem cti.s_len cti.s_len l.maxram (omega (arith, r.filled, r.no_longer))
            (omega arith) r.small r.ram,
      )
      refl
