-- ===== src/Chain/Writes.antt =====
-- stream.c, `compthread` in its turn: writing the blocks one after another leaves the layout.
use lrzip.Common.{
  ℕ, ◌+◌, ◌*◌, ◌<◌, ◌≡◌, refl, sym, ap, ap₂, ◌∙◌, arith, true, false, ◌||◌, List, [], ◌∷◌, ◌++◌,
  ◌==◌, if◌then◌else◌, All, All-append, Bool-cases, inl, inr, append-nil, append_assoc,
}
use lrzip.Common.Bytes.{le_bytes}
use lrzip.Backend.Types.{CompressThread, ctype_none}
use lrzip.Chain.{
  Sinfo, write_at, block_header, update, write_initial_header, start_chunk, write_block,
  write_blocks,
}
use lrzip.Chain.Layout.{
  Tagged, size, block_bytes, layout, occurs, link_at, total, IsSized, layout_absent, layout_present,
}

-- The initial header of a stream, as a block without bytes.
abbrev pub initial : CompressThread
initial = record { s_buf = []; s_len = 0; c_type = ctype_none; c_len = 0 }

abbrev pub initials : List Tagged
initials = (0, initial) ∷ (1, initial) ∷ []

module _ (w : ℕ) where
  -- The chunk's bytes are the layout of the blocks so far, and each stream's link is known.
  pub record IsLaid (bs : List Tagged) (s : Sinfo) : Type 0 where
    pub body : s.body ≡ layout w 0 bs
    pub cur_pos : s.cur_pos ≡ total w bs
    pub last_head : (i : ℕ) → occurs w i bs ≡ true → s.last_head i ≡ link_at w i bs

  occurs-append :
      (i j : ℕ) (bs : List Tagged) (c : CompressThread)
      → occurs w i (bs ++ ((j, c) ∷ [])) ≡ (occurs w i bs || j == i)
  occurs-append i j [] c = ground arith
  occurs-append i j ((k, cti) ∷ bs) c = ground (arith, occurs-append i j bs c)

  total-append :
      (j : ℕ) (bs : List Tagged) (c : CompressThread)
      → total w (bs ++ ((j, c) ∷ [])) ≡ total w bs + size w c
  total-append j [] c = omega arith
  total-append j ((k, cti) ∷ bs) c = omega (arith, total-append j bs c)

  link_at-append :
      (i j : ℕ) (bs : List Tagged) (c : CompressThread)
      → occurs w i (bs ++ ((j, c) ∷ [])) ≡ true
      → link_at w i (bs ++ ((j, c) ∷ []))
        ≡ (if j == i then total w bs + (1 + w * 2) else link_at w i bs)
  unfolding link_at
  link_at-append i j [] c h = ground arith
  link_at-append i j ((k, cti) ∷ bs) c h =
      ground (arith, link_at-append i j bs c, occurs-append i j bs c)

  -- The links after a block of stream `j`.
  updated :
      (bs : List Tagged) (s : Sinfo) (j : ℕ) (c : CompressThread)
      → IsLaid bs s
      → (i : ℕ) → occurs w i (bs ++ ((j, c) ∷ [])) ≡ true
      → update s.last_head j (s.cur_pos + 1 + w * 2) i ≡ link_at w i (bs ++ ((j, c) ∷ []))
  updated bs s j c h i o = elim (Bool-cases (j == i)) [
    | inl e ↦ ground (arith, link_at-append i j bs c o, h.cur_pos)
    | inr e ↦ ground (arith, link_at-append i j bs c o, occurs-append i j bs c, h.last_head i)
  ]

  write_initial_header-IsLaid :
      (bs : List Tagged) (s : Sinfo) (j : ℕ)
      → occurs w j bs ≡ false
      → IsLaid bs s
      → IsLaid (bs ++ ((j, initial) ∷ [])) (write_initial_header w j s)
  unfolding write_initial_header block_bytes
  write_initial_header-IsLaid bs s j o h = record {
    body =
        ap₂ ◌++◌ h.body (sym (append-nil (block_header w ctype_none 0 0 0)))
        ∙ sym (layout_absent w 0 j bs initial o);
    cur_pos = omega (arith, h.cur_pos, total-append j bs initial);
    last_head = updated bs s j initial h;
  }

  start_chunk-IsLaid : IsLaid initials (start_chunk w)
  unfolding start_chunk layout
  start_chunk-IsLaid =
      let empty : Sinfo = record { body = []; cur_pos = 0; last_head = λ j. 0 } in
      write_initial_header-IsLaid ((0, initial) ∷ []) (write_initial_header w 0 empty) 1
        (ground arith)
        (write_initial_header-IsLaid [] empty 0 refl
          (record { body = refl; cur_pos = refl; last_head = λ i o. absurd (cc) }))

  write_block-IsLaid :
      (bs : List Tagged) (s : Sinfo) (j : ℕ) (c : CompressThread)
      → occurs w j bs ≡ true
      → All (IsSized w) bs
      → IsLaid bs s
      → IsLaid (bs ++ ((j, c) ∷ [])) (write_block w j c s)
  unfolding write_block block_bytes
  write_block-IsLaid bs s j c o sized h = record {
    body =
        let e : 0 + total w bs ≡ total w bs = omega arith in
        rw (h.last_head j o, h.cur_pos, h.body)
          (sym (
            layout_present w 0 j bs c o sized
            ∙ ap
                (λ t. write_at (layout w 0 bs) (link_at w j bs) (le_bytes w t) ++ block_bytes w c 0)
                e));
    cur_pos = omega (arith, h.cur_pos, total-append j bs c);
    last_head = updated bs s j c h;
  }

  -- Blocks of streams that have their header.
  write_blocks-IsLaid :
      (done bs : List Tagged) (s : Sinfo)
      → All (λ b. occurs w b.0 done ≡ true) bs
      → All (IsSized w) done
      → All (IsSized w) bs
      → IsLaid done s
      → IsLaid (done ++ bs) (write_blocks w bs s)
  unfolding write_blocks
  write_blocks-IsLaid done [] s o sized new h = rw (append-nil done) h
  write_blocks-IsLaid done ((j, c) ∷ bs) s o sized new h =
      rw (← append_assoc done ((j, c) ∷ []) bs) (
        write_blocks-IsLaid (done ++ ((j, c) ∷ [])) bs (write_block w j c s) (still bs o.1)
          (All-append (IsSized w) done ((j, c) ∷ []) sized (new.0, tt)) new.1
          (write_block-IsLaid done s j c o.0 sized h))
    where
      still :
          (rest : List Tagged)
          → All (λ b. occurs w b.0 done ≡ true) rest
          → All (λ b. occurs w b.0 (done ++ ((j, c) ∷ [])) ≡ true) rest
      still [] q = tt
      still ((i, d) ∷ rest) q = (ground (arith, occurs-append i j done c), still rest q.1)

  -- For blocks of two streams whose lengths are those of their bytes, what the threads write,
  -- seeking back to set each link, is the layout: initial headers and blocks one behind the other,
  -- each header with the position of its stream's next one, or 0.
  pub write_blocks-layout :
      (bs : List Tagged)
      → All (λ b. b.0 < 2) bs
      → All (IsSized w) bs
      → (write_blocks w bs (start_chunk w)).body ≡ layout w 0 (initials ++ bs)
  write_blocks-layout bs o sized =
      (write_blocks-IsLaid initials bs (start_chunk w) (known bs o) (refl, (refl, tt)) sized
        start_chunk-IsLaid).body
    where
      known :
          (rest : List Tagged)
          → All (λ b. b.0 < 2) rest
          → All (λ b. occurs w b.0 initials ≡ true) rest
      known [] q = tt
      known ((i, d) ∷ rest) q = (ground (arith), known rest q.1)
