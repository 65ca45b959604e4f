-- ===== src/Runzip/Expand.antt =====
-- runzip.c, `match_expand`: a match that overlaps what it writes repeats its first period.
use lrzip.Common.{
  ℕ, zero, suc, ◌+◌, ◌-◌, ◌≤◌, min, ◌≡◌, refl, ap, ◌∙◌, arith, List, ◌++◌, length, take, drop, ltb,
  if◌then◌else◌, Bool-cases, inl, inr, ◌⊎◌,
}
use lrzip.Common.Slice.{slice, length-slice, slice-append, take-slice, drop-slice, slice_ext}
use lrzip.Rzip.Tokens.{IsCopy}

-- The loop `while (pos < len)`; `buf` holds the bytes `[0, pos)` of the scratch buffer.
pub expand_loop : ℕ → List ℕ → ℕ → ℕ → List ℕ
expand_loop zero buf offset len = buf
expand_loop (suc fuel) buf offset len =
    let pos = length buf in
    let n = min (len - pos) offset in
    let rest = expand_loop fuel (buf ++ take n (drop (pos - offset) buf)) offset len in
    if ltb pos len then rest else buf

-- Each round writes a byte at least, where `offset` is not 0.
unfoldable pub match_expand : List ℕ → ℕ → ℕ → List ℕ
unfolding expand_loop
match_expand buf offset len = expand_loop len buf offset len

module _ (chunk : ℕ → ℕ) {chunk_bytes pos ofs len : ℕ}
    (c : IsCopy chunk chunk_bytes pos ofs len) where
  -- Where the first `m` bytes are in place, the next round copies bytes of the chunk.
  round_copies :
      (m n : ℕ)
      → ofs ≤ m
      → n ≤ ofs
      → m + n ≤ len
      → slice chunk pos m ++ take n (drop (m - ofs) (slice chunk pos m)) ≡ slice chunk pos (m + n)
  round_copies m n hm hn hl =
      ap (λ t. slice chunk pos m ++ t) copied ∙ slice-append chunk pos m n (pos + m) refl
    where
      window : take n (drop (m - ofs) (slice chunk pos m)) ≡ slice chunk (pos + (m - ofs)) n
      window =
          ap (take n) (drop-slice chunk (m - ofs) pos m (pos + (m - ofs)) refl)
          ∙ take-slice chunk n (pos + (m - ofs)) (m - (m - ofs)) (omega arith)

      copied : take n (drop (m - ofs) (slice chunk pos m)) ≡ slice chunk (pos + m) n
      copied =
          window
          ∙ slice_ext chunk chunk (pos + (m - ofs)) (pos + m) n (λ k hk.
            let e : pos + (m - ofs) + k ≡ pos - ofs + (m + k) = omega (arith, c.ofs_back) in
            let f : pos + m + k ≡ pos + (m + k) = omega arith in
            rw (e, f) (c.same (m + k) (omega arith)))

  expand_loop-slice :
      (fuel m : ℕ)
      → m ≤ len
      → len - m ≤ fuel
      → (ofs ≤ m) ⊎ (m ≡ len)
      → expand_loop fuel (slice chunk pos m) ofs len ≡ slice chunk pos len
  unfolding expand_loop
  expand_loop-slice zero m h f p = ap (slice chunk pos) (omega arith)
  expand_loop-slice (suc fuel) m h f p =
      let l : length (slice chunk pos m) ≡ m = length-slice chunk pos m in
      elim (Bool-cases (ltb m len)) [
        | inl lt ↦
            let n : ℕ = min (len - m) ofs in
            let back : ofs ≤ m = ground arith in
            rw (l, lt, round_copies m n back (omega arith) (ground arith))
              (expand_loop-slice fuel (m + n) (ground arith) (ground (arith, c.ofs_pos))
                (inl (omega arith)))
        | inr ge ↦ let e : m ≡ len = ground arith in rw (l, ge) (ap (slice chunk pos) e)
      ]

  -- For a copy that is true of the chunk, `match_expand` of its first period gives the bytes of
  -- the chunk that the copy stands for.
  pub match_expand-slice :
      match_expand (slice chunk pos (min len ofs)) ofs len ≡ slice chunk pos len
  unfolding match_expand
  match_expand-slice = expand_loop-slice len (min len ofs) (omega arith) (omega arith) sides
    where
      sides : (ofs ≤ min len ofs) ⊎ (min len ofs ≡ len)
      sides = grind arith
