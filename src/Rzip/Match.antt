-- ===== src/Rzip/Match.antt =====
-- rzip.c, `match_len_linear`: how far two positions of the chunk agree, forwards and backwards.
pub mod Bounds
use lrzip.Common.{
  ℕ, zero, suc, ◌+◌, ◌-◌, min, max, ltb, leb, ◌==◌, if◌then◌else◌, Bool, true, false, ◌&&◌, ◌||◌,
}

abbrev pub minimum_match : ℕ
minimum_match = 31

-- `sizeof(size_t)`
abbrev pub word_bytes : ℕ
word_bytes = 8

-- `base[i]` is the byte at position i of the chunk.
module _ (base : ℕ → ℕ) where
  -- The comparison of two words that `memcpy` has loaded, byte by byte.
  unfoldable pub same_bytes : ℕ → ℕ → ℕ → Bool
  same_bytes zero i j = true
  same_bytes (suc n) i j = (base i == base j) && same_bytes n (i + 1) (j + 1)

  -- `while (f + (i64)sizeof(size_t) <= max_fwd)`: whole words, up to the first that differs.
  unfoldable pub forward_words : ℕ → ℕ → ℕ → ℕ → ℕ → ℕ
  forward_words zero p op max_fwd f = f
  forward_words (suc fuel) p op max_fwd f =
      let rest = forward_words fuel p op max_fwd (f + word_bytes) in
      if leb (f + word_bytes) max_fwd && same_bytes word_bytes (p + f) (op + f) then rest else f

  -- `while (f < max_fwd && a[f] == b[f])`
  unfoldable pub forward_bytes : ℕ → ℕ → ℕ → ℕ → ℕ → ℕ
  forward_bytes zero p op max_fwd f = f
  forward_bytes (suc fuel) p op max_fwd f =
      let rest = forward_bytes fuel p op max_fwd (f + 1) in
      if ltb f max_fwd && base (p + f) == base (op + f) then rest else f

  -- Both loops. Each round moves `f` on towards `max_fwd`.
  unfoldable pub forward : ℕ → ℕ → ℕ → ℕ
  forward p op max_fwd = forward_bytes max_fwd p op max_fwd (forward_words max_fwd p op max_fwd 0)

  -- `while (p > rev_end && o > 0 && base[o - 1] == base[p - 1])`: how many bytes before both
  -- positions agree; `r` of them are known.
  unfoldable pub backward : ℕ → ℕ → ℕ → ℕ → ℕ → ℕ
  backward zero p op rev_end r = r
  backward (suc fuel) p op rev_end r =
      let rest = backward fuel p op rev_end (r + 1) in
      if ltb rev_end (p - r) && ltb 0 (op - r) && base (op - r - 1) == base (p - r - 1)
      then rest
      else r

  -- The length of the match and `*rev`; length 0 is no match better than `best`.
  unfoldable pub match_len : ℕ → ℕ → ℕ → ℕ → ℕ → ℕ × ℕ
  match_len last_match p0 op end best =
      let f = forward p0 op (end - p0) in
      let max_rev = min (p0 - last_match) op in
      let rev = backward p0 p0 op last_match 0 in
      let len = f + rev in
      if leb p0 op
      then (0, 0)
      else if ltb (f + max_rev) minimum_match || leb (f + max_rev) best
      then (0, 0)
      else if ltb len minimum_match || leb len best
      then (0, rev)
      else (len, rev)
