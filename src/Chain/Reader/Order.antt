-- ===== src/Chain/Reader/Order.antt =====
-- stream.c: the blocks that a stream's headers lead to are those that were written, in order.
use lrzip.Common.{
  ℕ, zero, suc, ◌+◌, ◌*◌, ◌^◌, ◌≤◌, ◌<◌, ◌≡◌, ◌⊎◌, refl, sym, ap, ◌∙◌, arith, true, false, some,
  List, [], ◌∷◌, ◌++◌, length, drop, ltb, ◌==◌, if◌then◌else◌, All, Bool-cases, inl, inr,
  length-append, take-append, drop-append, drop-drop, append_assoc,
}
use lrzip.Backend.Types.{CompressThread, UncompThread}
use lrzip.Backend.Packed.{as_stored}
use lrzip.Chain.{block_header}
use lrzip.Chain.Layout.{
  length-block_header, Tagged, size, next_head, block_bytes, layout, IsSized, total,
  length-block_bytes,
}
use lrzip.Chain.Reader.{
  Limits, is_empty_block, skip_empty, start, read_block, fill_another, read_chain,
}
use lrzip.Chain.Reader.Follows.{
  blocks_of, header_of, IsReadable, Bounds, read_block_header-block_bytes, header_ok-header_of,
}

-- The bytes that a stream's blocks take.
abbrev pub sizes : ℕ → List CompressThread → ℕ
sizes w [] = 0
sizes w (c ∷ cs) = size w c + sizes w cs

-- The blocks that the reader decompresses: it passes over an empty one.
abbrev pub delivered : List CompressThread → List UncompThread
delivered [] = []
delivered (c ∷ cs) = if c.c_len == 0 then delivered cs else as_stored c ∷ delivered cs

-- A stream's blocks: each can be read, but that of stream 1 the last may be empty.
abbrev pub AreReadable : Limits → ℕ → List CompressThread → Type 0
AreReadable l j [] = Unit
AreReadable l j (c ∷ cs) =
    (IsReadable l c × AreReadable l j cs) ⊎ ((j ≡ 1) × (c.c_len ≡ 0) × (c.s_len ≡ 0) × (cs ≡ []))

pub next_head_place :
    (w pos j : ℕ) (bs : List Tagged)
    → (next_head w pos j bs ≡ 0)
      ⊎ ((pos ≤ next_head w pos j bs) × (next_head w pos j bs < pos + total w bs))
unfolding next_head
next_head_place w pos j [] = inl refl
next_head_place w pos j ((k, c) ∷ bs) = elim (Bool-cases (k == j)) [
  | inl e ↦ rw e (inr (omega arith, omega arith))
  | inr e ↦ rw e (elim (next_head_place w (pos + size w c) j bs) [
    | inl z ↦ inl z
    | inr (lo, hi) ↦ inr (omega arith, omega arith)
  ])
]

next_head_none :
    (w pos j : ℕ) (bs : List Tagged) → 0 < pos → next_head w pos j bs ≡ 0 → blocks_of j bs ≡ []
unfolding next_head
next_head_none w pos j [] lo h = refl
next_head_none w pos j ((k, c) ∷ bs) lo h =
    ground (arith, next_head_none w (pos + size w c) j bs (omega arith))

next_head_last : (w pos j : ℕ) (bs : List Tagged) → blocks_of j bs ≡ [] → next_head w pos j bs ≡ 0
unfolding next_head
next_head_last w pos j [] h = refl
next_head_last w pos j ((k, c) ∷ bs) h = ground (arith, next_head_last w (pos + size w c) j bs)

not_empty :
    (j link : ℕ) (c : CompressThread) → 1 ≤ c.c_len → is_empty_block j (header_of c link) ≡ false
unfolding is_empty_block
not_empty j link c h = ground arith

module _ (l : Limits) (body : List ℕ) (b : Bounds l body) where
  -- The bytes behind a block's header.
  block_behind :
      (pos link : ℕ) (c : CompressThread) (rest : List ℕ)
      → drop pos body ≡ block_bytes l.chunk_bytes c link ++ rest
      → drop (pos + (1 + l.chunk_bytes * 3)) body ≡ c.s_buf ++ rest
  unfolding block_bytes
  block_behind pos link c rest e =
      sym (drop-drop (1 + l.chunk_bytes * 3) pos body)
      ∙ ap (drop (1 + l.chunk_bytes * 3))
          (e ∙ append_assoc (block_header l.chunk_bytes c.c_type c.c_len c.s_len link) c.s_buf rest)
      ∙ drop-append (1 + l.chunk_bytes * 3)
          (block_header l.chunk_bytes c.c_type c.c_len c.s_len link) (c.s_buf ++ rest)
          (length-block_header l.chunk_bytes c.c_type c.c_len c.s_len link)

  read_block_lem :
      (pos total_read link : ℕ) (c : CompressThread) (rest : List ℕ)
      → drop pos body ≡ block_bytes l.chunk_bytes c link ++ rest
      → c.c_len ≡ length c.s_buf
      → read_block l.chunk_bytes body pos total_read (header_of c link)
        ≡ some (start (as_stored c) link (total_read + c.c_len))
  read_block_lem pos total_read link c rest e len =
      let long : ltb (length (c.s_buf ++ rest)) c.c_len ≡ false =
        ground (arith, length-append c.s_buf rest) in
      rw (block_behind pos link c rest e, long, take-append c.c_len c.s_buf rest (sym len)) refl

  link_fits :
      (pos link : ℕ)
      → (link ≡ 0) ⊎ ((pos < link) × (link < length body))
      → link < 256 ^ l.chunk_bytes
  link_fits pos link (inl z) = omega (arith, b.width)
  link_fits pos link (inr (lo, hi)) = omega (arith, b.width)

  fill_another_lem :
      (j pos total_read link : ℕ) (c : CompressThread) (rest : List ℕ)
      → drop pos body ≡ block_bytes l.chunk_bytes c link ++ rest
      → IsReadable l c
      → (link ≡ 0) ⊎ ((pos < link) × (link < length body))
      → total_read + size l.chunk_bytes c ≤ length body
      → fill_another l body j pos total_read
        ≡ some (start (as_stored c) link (total_read + size l.chunk_bytes c))
  unfolding fill_another
  fill_another_lem j pos total_read link c rest e r place room =
      let sum : total_read + (1 + l.chunk_bytes * 3) + c.c_len ≡ total_read + size l.chunk_bytes c =
        omega arith in
      let filled : is_empty_block j (header_of c link) ≡ false = not_empty j link c r.filled in
      rw
        (
          read_block_header-block_bytes l.chunk_bytes pos link c body rest e
              (omega (arith, r.no_longer, r.width)) r.width (link_fits pos link place),
          filled,
          header_ok-header_of l body pos (total_read + (1 + l.chunk_bytes * 3)) link c r b place
              (omega arith),
          read_block_lem pos (total_read + (1 + l.chunk_bytes * 3)) link c rest e r.c_len,
          sum,
        )
        refl

  fill_empty :
      (pos total_read : ℕ) (c : CompressThread) (rest : List ℕ)
      → drop pos body ≡ block_bytes l.chunk_bytes c 0 ++ rest
      → c.c_len ≡ 0
      → c.s_len ≡ 0
      → fill_another l body 1 pos total_read ≡ some skip_empty
  unfolding fill_another is_empty_block
  fill_empty pos total_read c rest e hc hs =
      let p : 0 < 256 ^ l.chunk_bytes = omega (arith, b.width) in
      rw
        (
          read_block_header-block_bytes l.chunk_bytes pos 0 c body rest e (omega arith)
              (omega arith) p,
          hc,
          hs,
        )
        refl

  fill_empty_at :
      (j pos total_read : ℕ) (c : CompressThread) (rest : List ℕ)
      → drop pos body ≡ block_bytes l.chunk_bytes c 0 ++ rest
      → j ≡ 1
      → c.c_len ≡ 0
      → c.s_len ≡ 0
      → fill_another l body j pos total_read ≡ some skip_empty
  fill_empty_at j pos total_read c rest e one hc hs =
      rw one (fill_empty pos total_read c rest e hc hs)

  -- What stands behind a block.
  pub layout_behind :
      (pos link : ℕ) (c : CompressThread) (rest : List ℕ)
      → drop pos body ≡ block_bytes l.chunk_bytes c link ++ rest
      → c.c_len ≡ length c.s_buf
      → drop (pos + size l.chunk_bytes c) body ≡ rest
  layout_behind pos link c rest e len =
      sym (drop-drop (size l.chunk_bytes c) pos body)
      ∙ ap (drop (size l.chunk_bytes c)) e
      ∙ drop-append (size l.chunk_bytes c) (block_bytes l.chunk_bytes c link) rest
          (length-block_bytes l.chunk_bytes c link len)

  -- A block of the stream: `ih` is what its link leads to.
  own_block :
      (j fuel pos total_read : ℕ) (c : CompressThread) (bs : List Tagged)
      → let link = next_head l.chunk_bytes (pos + size l.chunk_bytes c) j bs in
        drop pos body
          ≡ block_bytes l.chunk_bytes c link ++ layout l.chunk_bytes (pos + size l.chunk_bytes c) bs
        → pos + (size l.chunk_bytes c + total l.chunk_bytes bs) ≡ length body
        → AreReadable l j (c ∷ blocks_of j bs)
        → total_read + size l.chunk_bytes c ≤ length body
        → (0 < next_head l.chunk_bytes (pos + size l.chunk_bytes c) j bs
            → AreReadable l j (blocks_of j bs)
            → read_chain fuel l body j
                (next_head l.chunk_bytes (pos + size l.chunk_bytes c) j bs)
                (total_read + size l.chunk_bytes c)
              ≡ some (delivered (blocks_of j bs)))
        → read_chain (suc fuel) l body j pos total_read ≡ some (delivered (c ∷ blocks_of j bs))
  unfolding read_chain
  own_block j fuel pos total_read c bs e len (inl (r, rs)) room ih =
      let link = next_head l.chunk_bytes (pos + size l.chunk_bytes c) j bs in
      let place : (link ≡ 0) ⊎ ((pos < link) × (link < length body)) =
        elim (next_head_place l.chunk_bytes (pos + size l.chunk_bytes c) j bs) [
          | inl z ↦ inl z
          | inr (lo, hi) ↦ inr (omega arith, omega arith)
        ] in
      let filled : (c.c_len == 0) ≡ false = ground (arith, r.filled) in
      rw (fill_another_lem j pos total_read link c _ e r place room, filled)
        (elim (Bool-cases (link == 0)) [
          | inl z ↦
              rw
                (
                  z,
                  next_head_none l.chunk_bytes (pos + size l.chunk_bytes c) j bs (omega arith)
                      (ground arith),
                )
                refl
          | inr z ↦ rw (z, ih (ground arith) rs) refl
        ])
  own_block j fuel pos total_read c bs e len (inr (one, none_c, none_s, last)) room ih =
      let z = next_head_last l.chunk_bytes (pos + size l.chunk_bytes c) j bs last in
      let empty : (c.c_len == 0) ≡ true = ground arith in
      rw (fill_empty_at j pos total_read c _ (rw z at e) one none_c none_s, last, empty) refl

  -- From the next header of stream `j` in the blocks from `pos` on.
  pub read_chain-layout :
      (j fuel pos total_read : ℕ) (bs : List Tagged)
      → drop pos body ≡ layout l.chunk_bytes pos bs
      → pos + total l.chunk_bytes bs ≡ length body
      → All (IsSized l.chunk_bytes) bs
      → AreReadable l j (blocks_of j bs)
      → 0 < pos
      → 0 < next_head l.chunk_bytes pos j bs
      → length bs ≤ fuel
      → total_read + sizes l.chunk_bytes (blocks_of j bs) ≤ length body
      → read_chain fuel l body j (next_head l.chunk_bytes pos j bs) total_read
        ≡ some (delivered (blocks_of j bs))
  unfolding next_head layout
  read_chain-layout j fuel pos total_read [] e len sized r lo some_head enough room =
      absurd (omega arith)
  read_chain-layout j zero pos total_read ((k, c) ∷ bs) e len sized r lo some_head enough room =
      absurd (omega arith)
  read_chain-layout j (suc fuel) pos total_read ((k, c) ∷ bs) e len sized r lo some_head enough
        room =
      let same : k == j ≡ true → k ≡ j = λ q. ground arith in
      elim (Bool-cases (k == j)) [
        | inl mine ↦ rw mine (
            own_block j fuel pos total_read c bs (rw (same mine) at e) (omega arith) (rw mine at r)
              (omega (arith, rw mine at room))
              (λ more rs.
                read_chain-layout j fuel (pos + size l.chunk_bytes c)
                  (total_read + size l.chunk_bytes c) bs (layout_behind pos _ c _ e sized.0)
                  (omega arith) sized.1 rs (omega arith) more (omega arith)
                  (omega (arith, rw mine at room))))
        | inr other ↦ rw other (
            read_chain-layout j (suc fuel) (pos + size l.chunk_bytes c) total_read bs
              (layout_behind pos _ c _ e sized.0) (omega arith) sized.1 (rw other at r)
              (omega arith) (rw other at some_head) (omega arith) (rw other at room))
      ]
