-- ===== src/Chain/RoundTrip.antt =====
-- stream.c: the blocks that `compthread` writes in its turns are those that `fill_buffer` finds.
use lrzip.Common.{
  ℕ, ◌+◌, ◌-◌, ◌*◌, ◌^◌, ◌≤◌, ◌<◌, ◌≡◌, refl, sym, ap, ◌∙◌, arith, true, false, some, List, [], ◌∷◌,
  ◌++◌, length, drop, ◌==◌, All, inl, inr, length-append,
}
use lrzip.Backend.Types.{CompressThread}
use lrzip.Chain.{start_chunk, write_blocks}
use lrzip.Chain.Layout.{
  Tagged, size, next_head, block_bytes, layout, occurs, IsSized, total, length-block_bytes,
}
use lrzip.Chain.Writes.{initial, initials, write_blocks-layout}
use lrzip.Chain.Reader.{Limits}
use lrzip.Chain.Reader.Follows.{blocks_of, Bounds, read_block_header-block_bytes}
use lrzip.Chain.Reader.Order.{
  sizes, delivered, AreReadable, next_head_place, layout_behind, read_chain-layout,
}
use lrzip.Chain.Open.{open_first, open_stream_in, bytes_read, moved, read_streams}

length-layout :
    (w pos : ℕ) (bs : List Tagged) → All (IsSized w) bs → length (layout w pos bs) ≡ total w bs
unfolding layout
length-layout w pos [] sized = refl
length-layout w pos ((j, c) ∷ bs) sized = omega (
  arith,
  length-append (block_bytes w c (next_head w (pos + size w c) j bs))
      (layout w (pos + size w c) bs),
  length-block_bytes w c (next_head w (pos + size w c) j bs) sized.0,
  length-layout w (pos + size w c) bs sized.1,
)

-- Each block belongs to one of the two streams.
sizes-blocks_of :
    (w : ℕ) (bs : List Tagged)
    → All (λ b. b.0 < 2) bs
    → sizes w (blocks_of 0 bs) + sizes w (blocks_of 1 bs) ≡ total w bs
sizes-blocks_of w [] h = refl
sizes-blocks_of w ((j, c) ∷ bs) h = ground (arith, sizes-blocks_of w bs h.1)

length-tagged : (w : ℕ) (bs : List Tagged) → length bs ≤ total w bs
length-tagged w [] = omega arith
length-tagged w ((j, c) ∷ bs) = omega (arith, length-tagged w bs)

-- Nothing of stream 0 is passed over.
bytes_read-delivered :
    (w : ℕ) (l : Limits) (cs : List CompressThread)
    → AreReadable l 0 cs
    → bytes_read w (delivered cs) ≡ sizes w cs
bytes_read-delivered w l [] h = refl
bytes_read-delivered w l (c ∷ cs) (inl (r, rs)) =
    ground (arith, r.filled, bytes_read-delivered w l cs rs)
bytes_read-delivered w l (c ∷ cs) (inr (one, e, f, g)) = absurd (omega arith)

next_head_some :
    (w pos j : ℕ) (bs : List Tagged) → 0 < pos → occurs w j bs ≡ true → 0 < next_head w pos j bs
unfolding next_head
next_head_some w pos j [] lo h = absurd (cc)
next_head_some w pos j ((k, c) ∷ bs) lo h =
    ground (arith, next_head_some w (pos + size w c) j bs (omega arith))

moved_none : (l : Limits) (n : ℕ) → n ≡ 0 → moved l n ≡ l
moved_none l n z =
    let e : l.initial_pos + n ≡ l.initial_pos = omega arith in
    ap (λ t. record l { initial_pos = t }) e

module _ (l : Limits) (body : List ℕ) (bs : List Tagged) (b : Bounds l body)
    (laid : body ≡ layout l.chunk_bytes 0 (initials ++ bs)) where
  abbrev w : ℕ
  w = l.chunk_bytes

  -- Where the first block stands.
  abbrev first : ℕ
  first = 0 + size w initial + size w initial

  abbrev head : ℕ → ℕ
  head j = next_head w first j bs

  header0 :
      drop 0 body
      ≡ block_bytes w initial (head 0) ++ (block_bytes w initial (head 1) ++ layout w first bs)
  unfolding layout next_head
  header0 = laid

  header1 : drop (1 + w * 3) body ≡ block_bytes w initial (head 1) ++ layout w first bs
  header1 =
      let e : 0 + size w initial ≡ 1 + w * 3 = omega arith in
      ap (λ t. drop t body) (sym e) ∙ layout_behind l body b 0 (head 0) initial _ header0 refl

  blocks : drop first body ≡ layout w first bs
  blocks =
      let e : 1 + w * 3 + size w initial ≡ first = omega arith in
      ap (λ t. drop t body) (sym e)
      ∙ layout_behind l body b (1 + w * 3) (head 1) initial _ header1 refl

  body-length : All (IsSized w) bs → length body ≡ first + total w bs
  body-length sized =
      ap length laid ∙ length-layout w 0 (initials ++ bs) (refl, (refl, sized)) ∙ omega arith

  head_fits : (j : ℕ) → All (IsSized w) bs → head j < 256 ^ w
  head_fits j sized = elim (next_head_place w first j bs) [
    | inl z ↦ omega (arith, b.width)
    | inr (lo, hi) ↦ omega (arith, b.width, body-length sized)
  ]

  open_stream_in_lem :
      All (IsSized w) bs → 0 < head 0 → open_stream_in w body ≡ some (body, head 0, head 1)
  unfolding open_stream_in open_first
  open_stream_in_lem sized some_head =
      let p : 0 < 256 ^ w = omega (arith, b.width) in
      let linked : (head 0 == 0) ≡ false = ground arith in
      rw
        (
          read_block_header-block_bytes w 0 (head 0) initial body _ header0 p p (head_fits 0 sized),
          linked,
          read_block_header-block_bytes w (1 + w * 3) (head 1) initial body _ header1 p p
              (head_fits 1 sized),
        )
        refl

  streams_lem :
      All (λ t. t.0 < 2) bs
      → occurs w 0 bs ≡ true
      → occurs w 1 bs ≡ true
      → All (IsSized w) bs
      → AreReadable l 0 (blocks_of 0 bs)
      → AreReadable l 1 (blocks_of 1 bs)
      → read_streams l body ≡ some (delivered (blocks_of 0 bs), delivered (blocks_of 1 bs))
  unfolding read_streams
  streams_lem two o0 o1 sized r0 r1 =
      let z : length body - length body ≡ 0 = omega arith in
      let len = body-length sized in
      let sum = sizes-blocks_of w bs two in
      let h0 = next_head_some w first 0 bs (omega arith) o0 in
      let h1 = next_head_some w first 1 bs (omega arith) o1 in
      let heads = length body - length body + (1 + w * 3) * 2 in
      let fuel : length bs ≤ length body = omega (arith, length-tagged w bs) in
      rw
        (
          open_stream_in_lem sized h0,
          moved_none l (length body - length body) z,
          read_chain-layout l body b 0 (length body) first heads bs blocks (sym len) sized r0
              (omega arith) h0 fuel (omega arith),
          read_chain-layout l body b 1 (length body) first
              (heads + bytes_read w (delivered (blocks_of 0 bs))) bs blocks (sym len) sized r1
              (omega arith) h1 fuel (omega (arith, bytes_read-delivered w l (blocks_of 0 bs) r0)),
        )
        refl

-- The reader finds in each stream's chain the blocks that were written for it, in order, less the
-- empty ones: where both streams have a block, each block's length is that of its bytes and passes
-- the reader's limits, but that of stream 1 the last may be empty, and the bytes end within the
-- frame, the file, the width and 2 ^ 63.
pub write_blocks-read_streams :
    (l : Limits) (bs : List Tagged)
    → All (λ t. t.0 < 2) bs
    → occurs l.chunk_bytes 0 bs ≡ true
    → occurs l.chunk_bytes 1 bs ≡ true
    → All (IsSized l.chunk_bytes) bs
    → AreReadable l 0 (blocks_of 0 bs)
    → AreReadable l 1 (blocks_of 1 bs)
    → Bounds l (write_blocks l.chunk_bytes bs (start_chunk l.chunk_bytes)).body
    → read_streams l (write_blocks l.chunk_bytes bs (start_chunk l.chunk_bytes)).body
      ≡ some (delivered (blocks_of 0 bs), delivered (blocks_of 1 bs))
write_blocks-read_streams l bs two o0 o1 sized r0 r1 b =
    streams_lem l _ bs b (write_blocks-layout l.chunk_bytes bs two sized) two o0 o1 sized r0 r1
