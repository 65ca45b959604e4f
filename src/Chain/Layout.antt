-- ===== src/Chain/Layout.antt =====
-- The bytes that a chunk's blocks come to: each header with the position of its stream's next one.
use lrzip.Common.{
  ℕ, ◌+◌, ◌-◌, ◌*◌, ◌≡◌, ◌⊎◌, refl, sym, ap, ◌∙◌, arith, Bool, true, false, List, [], ◌∷◌, ◌++◌,
  length, take, drop, ◌==◌, ◌||◌, if◌then◌else◌, All, Bool-cases, inl, inr, length-append,
  take-append, drop-append, take-append_ge, drop-append_ge, append-nil, append_assoc,
}
use lrzip.Common.Bytes.{le_bytes, length-le_bytes}
use lrzip.Backend.Types.{CompressThread}
use lrzip.Chain.{write_at, block_header}

abbrev pub Tagged : Type 0
Tagged = ℕ × CompressThread

module _ (w : ℕ) where
  abbrev pub size : CompressThread → ℕ
  size cti = 1 + w * 3 + cti.c_len

  -- The header behind `pos` of stream `j`'s next block, 0 if there is none.
  unfoldable pub next_head : ℕ → ℕ → List Tagged → ℕ
  next_head pos j [] = 0
  next_head pos j ((k, cti) ∷ bs) =
      let rest = next_head (pos + size cti) j bs in if k == j then pos else rest

  unfoldable pub block_bytes : CompressThread → ℕ → List ℕ
  block_bytes cti link = block_header w cti.c_type cti.c_len cti.s_len link ++ cti.s_buf

  -- The blocks from `pos` on.
  unfoldable pub layout : ℕ → List Tagged → List ℕ
  layout pos [] = []
  layout pos ((j, cti) ∷ bs) =
      block_bytes cti (next_head (pos + size cti) j bs) ++ layout (pos + size cti) bs

  abbrev pub occurs : ℕ → List Tagged → Bool
  occurs j [] = false
  occurs j ((k, cti) ∷ bs) = k == j || occurs j bs

  -- How far behind the first block stream `j`'s last link stands.
  unfoldable pub link_at : ℕ → List Tagged → ℕ
  link_at j [] = 0
  link_at j ((k, cti) ∷ bs) =
      let rest = link_at j bs in if occurs j bs then size cti + rest else 1 + w * 2

  abbrev pub total : List Tagged → ℕ
  total [] = 0
  total ((j, cti) ∷ bs) = size cti + total bs

  -- The length of a block is that of its bytes.
  abbrev pub IsSized : Tagged → Type 0
  IsSized (j, cti) = cti.c_len ≡ length cti.s_buf

  pub length-block_header :
      (c_type c_len s_len link : ℕ) → length (block_header w c_type c_len s_len link) ≡ 1 + w * 3
  unfolding block_header
  length-block_header c_type c_len s_len link = omega (
    arith,
    length-append (le_bytes w c_len) (le_bytes w s_len ++ le_bytes w link),
    length-append (le_bytes w s_len) (le_bytes w link),
    length-le_bytes w c_len,
    length-le_bytes w s_len,
    length-le_bytes w link,
  )

  pub length-block_bytes :
      (cti : CompressThread) (link : ℕ)
      → cti.c_len ≡ length cti.s_buf
      → length (block_bytes cti link) ≡ size cti
  unfolding block_bytes
  length-block_bytes cti link h = omega (
    arith,
    length-append (block_header w cti.c_type cti.c_len cti.s_len link) cti.s_buf,
    length-block_header cti.c_type cti.c_len cti.s_len link,
  )

  next_head_absent : (pos j : ℕ) (bs : List Tagged) → occurs j bs ≡ false → next_head pos j bs ≡ 0
  unfolding next_head
  next_head_absent pos j [] h = refl
  next_head_absent pos j ((k, cti) ∷ bs) h =
      ground (arith, next_head_absent (pos + size cti) j bs (ground arith))

  -- A block behind the others is the next one of its stream where there is none yet.
  next_head-append :
      (pos i j : ℕ) (bs : List Tagged) (c : CompressThread)
      → next_head pos i (bs ++ ((j, c) ∷ []))
        ≡ (if occurs i bs then next_head pos i bs else if j == i then pos + total bs else 0)
  unfolding next_head
  next_head-append pos i j [] c = ground arith
  next_head-append pos i j ((k, cti) ∷ bs) c =
      ground (arith, next_head-append (pos + size cti) i j bs c)

  pub layout_absent :
      (pos j : ℕ) (bs : List Tagged) (c : CompressThread)
      → occurs j bs ≡ false
      → layout pos (bs ++ ((j, c) ∷ [])) ≡ layout pos bs ++ block_bytes c 0
  unfolding layout next_head
  layout_absent pos j [] c h = append-nil (block_bytes c 0)
  layout_absent pos j ((k, cti) ∷ bs) c h =
      let e : next_head (pos + size cti) k (bs ++ ((j, c) ∷ [])) ≡ next_head (pos + size cti) k bs =
        ground (
          arith,
          next_head-append (pos + size cti) k j bs c,
          next_head_absent (pos + size cti) k bs,
        ) in
      rw (e, layout_absent (pos + size cti) j bs c (ground arith))
        (sym (append_assoc (block_bytes cti _) (layout (pos + size cti) bs) (block_bytes c 0)))

  write_at-behind :
      (n q : ℕ) (xs ys v : List ℕ)
      → length xs ≡ n
      → write_at (xs ++ ys) (n + q) v ≡ xs ++ write_at ys q v
  unfolding write_at
  write_at-behind n q xs ys v h =
      let e : n + q - length xs ≡ q = omega arith in
      let f : n + q + length v - length xs ≡ q + length v = omega arith in
      rw
        (
          take-append_ge (n + q) xs ys (omega arith),
          drop-append_ge (n + q + length v) xs ys (omega arith),
          e,
          f,
        )
        (append_assoc xs (take q ys) (v ++ drop (q + length v) ys))

  write_at-field :
      (n : ℕ) (a b c v : List ℕ)
      → length a ≡ n
      → length b ≡ length v
      → write_at (a ++ (b ++ c)) n v ≡ a ++ (v ++ c)
  unfolding write_at
  write_at-field n a b c v h k =
      let e : n + length v - length a ≡ length v = omega arith in
      rw (
        take-append n a (b ++ c) h,
        drop-append_ge (n + length v) a (b ++ c) (omega arith),
        e,
        drop-append (length v) b c k,
      )

  -- What stands before a block's link.
  before_link : CompressThread → List ℕ
  before_link cti = cti.c_type ∷ (le_bytes w cti.c_len ++ le_bytes w cti.s_len)

  length-before_link : (cti : CompressThread) → length (before_link cti) ≡ 1 + w * 2
  unfolding before_link
  length-before_link cti = omega (
    arith,
    length-append (le_bytes w cti.c_len) (le_bytes w cti.s_len),
    length-le_bytes w cti.c_len,
    length-le_bytes w cti.s_len,
  )

  block_bytes_lem :
      (cti : CompressThread) (link : ℕ)
      → block_bytes cti link ≡ before_link cti ++ (le_bytes w link ++ cti.s_buf)
  unfolding block_bytes block_header before_link
  block_bytes_lem cti link =
      ap (λ t. cti.c_type ∷ t)
        (append_assoc (le_bytes w cti.c_len) (le_bytes w cti.s_len ++ le_bytes w link) cti.s_buf
          ∙ ap (λ t. le_bytes w cti.c_len ++ t)
              (append_assoc (le_bytes w cti.s_len) (le_bytes w link) cti.s_buf)
          ∙ sym (append_assoc (le_bytes w cti.c_len) (le_bytes w cti.s_len) _))

  -- The link of the first block is replaced, and nothing else.
  write_at-link :
      (cti : CompressThread) (link : ℕ) (bytes : List ℕ)
      → write_at (block_bytes cti 0 ++ bytes) (1 + w * 2) (le_bytes w link)
        ≡ block_bytes cti link ++ bytes
  write_at-link cti link bytes =
      rw (block_bytes_lem cti 0, block_bytes_lem cti link)
        (ap (λ t. write_at t (1 + w * 2) (le_bytes w link)) (regroup 0)
          ∙ write_at-field (1 + w * 2) (before_link cti) (le_bytes w 0) (cti.s_buf ++ bytes)
              (le_bytes w link) (length-before_link cti)
              (length-le_bytes w 0 ∙ sym (length-le_bytes w link))
          ∙ sym (regroup link))
    where
      regroup :
          (v : ℕ)
          → (before_link cti ++ (le_bytes w v ++ cti.s_buf)) ++ bytes
            ≡ before_link cti ++ (le_bytes w v ++ (cti.s_buf ++ bytes))
      regroup v =
          append_assoc (before_link cti) (le_bytes w v ++ cti.s_buf) bytes
          ∙ ap (λ t. before_link cti ++ t) (append_assoc (le_bytes w v) cti.s_buf bytes)

  -- A stream that has a block already, or is not the new block's, keeps its next header.
  next_head_kept :
      (pos i j : ℕ) (bs : List Tagged) (c : CompressThread)
      → ((j == i) ≡ false) ⊎ (occurs i bs ≡ true)
      → next_head pos i (bs ++ ((j, c) ∷ [])) ≡ next_head pos i bs
  next_head_kept pos i j bs c h = elim (Bool-cases (occurs i bs)) [
    | inl o ↦ ground (arith, next_head-append pos i j bs c)
    | inr o ↦ elim h [
      | inl d ↦ ground (arith, next_head-append pos i j bs c, next_head_absent pos i bs o)
      | inr o' ↦ absurd (cc)
    ]
  ]

  pub layout_present :
      (pos j : ℕ) (bs : List Tagged) (c : CompressThread)
      → occurs j bs ≡ true
      → All IsSized bs
      → layout pos (bs ++ ((j, c) ∷ []))
        ≡ write_at (layout pos bs) (link_at j bs) (le_bytes w (pos + total bs)) ++ block_bytes c 0
  unfolding layout link_at
  layout_present pos j [] c h sized = absurd (cc)
  layout_present pos j ((k, cti) ∷ bs) c h sized =
      let e = next_head-append (pos + size cti) k j bs c in
      let sum : pos + size cti + total bs ≡ pos + total ((k, cti) ∷ bs) = omega arith in
      elim (Bool-cases (occurs j bs)) [
        | inl o ↦
            let same : next_head (pos + size cti) k (bs ++ ((j, c) ∷ []))
                ≡ next_head (pos + size cti) k bs =
              elim (Bool-cases (j == k)) [
                | inl d ↦
                    let f : j ≡ k = ground arith in
                    next_head_kept (pos + size cti) k j bs c
                      (inr (ap (λ t. occurs t bs) (sym f) ∙ o))
                | inr d ↦ next_head_kept (pos + size cti) k j bs c (inl d)
              ] in
            rw (o, same, layout_present (pos + size cti) j bs c o sized.1, sum)
              (sym (
                  append_assoc (block_bytes cti _) (write_at (layout (pos + size cti) bs) _ _)
                    (block_bytes c 0))
                ∙ ap (λ t. t ++ block_bytes c 0)
                    (sym (
                      write_at-behind (size cti) (link_at j bs) (block_bytes cti _)
                        (layout (pos + size cti) bs) _ (length-block_bytes cti _ sized.0))))
        | inr o ↦
            let f : k ≡ j = ground arith in
            let g : next_head (pos + size cti) k bs ≡ 0 =
              next_head_absent (pos + size cti) k bs (ap (λ t. occurs t bs) f ∙ o) in
            let n : next_head (pos + size cti) k (bs ++ ((j, c) ∷ []))
                ≡ pos + total ((k, cti) ∷ bs) =
              ground (arith, e, ap (λ t. occurs t bs) f) in
            rw (o, g, n, layout_absent (pos + size cti) j bs c o)
              (sym (
                  append_assoc (block_bytes cti (pos + total ((k, cti) ∷ bs)))
                    (layout (pos + size cti) bs) (block_bytes c 0))
                ∙ ap (λ t. t ++ block_bytes c 0)
                    (sym (
                      write_at-link cti (pos + total ((k, cti) ∷ bs))
                        (layout (pos + size cti) bs))))
      ]
