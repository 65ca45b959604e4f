-- ===== src/Rzip/Tag/Rolling.antt =====
-- The tag that is rolled on is the tag computed anew.
use lrzip.Common.{ℕ, zero, suc, ◌+◌, ◌-◌, ◌≡◌, refl, sym, ap, ◌∙◌, arith, bit_xor}
use lrzip.Common.Xor.{bit_xor_swap, bit_xor_cancel}
use lrzip.Rzip.Match.{minimum_match}
use lrzip.Rzip.Tag.{tag_loop, full_tag, next_tag}

module _ (hash_index buf : ℕ → ℕ) where
  -- What is in the tag before a run of bytes can be put in behind it.
  tag_loop-bit_xor :
      (n p r x : ℕ)
      → tag_loop hash_index buf n p (bit_xor r x) ≡ bit_xor (tag_loop hash_index buf n p r) x
  unfolding tag_loop
  tag_loop-bit_xor zero p r x = refl
  tag_loop-bit_xor (suc n) p r x =
      ap (tag_loop hash_index buf n (p + 1)) (bit_xor_swap r x (hash_index (buf p)))
      ∙ tag_loop-bit_xor n (p + 1) (bit_xor r (hash_index (buf p))) x

  -- The last byte of a run.
  tag_loop_last :
      (n p r q : ℕ)
      → p + n ≡ q
      → tag_loop hash_index buf (suc n) p r
        ≡ bit_xor (tag_loop hash_index buf n p r) (hash_index (buf q))
  unfolding tag_loop
  tag_loop_last zero p r q h =
      let e : p ≡ q = omega arith in ap (λ k. bit_xor r (hash_index (buf k))) e
  tag_loop_last (suc n) p r q h =
      tag_loop_last n (p + 1) (bit_xor r (hash_index (buf p))) q (omega arith)

  -- The tag at `p`, rolled on by `next_tag`, is the tag that `full_tag` computes at `p + 1`.
  pub next_tag-full_tag :
      (p : ℕ)
      → next_tag hash_index buf (p + 1) (full_tag hash_index buf p)
        ≡ full_tag hash_index buf (p + 1)
  unfolding next_tag full_tag tag_loop
  next_tag-full_tag p =
      let a : p + 1 - 1 ≡ p = omega arith in
      rw a (
        ap
          (λ t.
            bit_xor (bit_xor t (hash_index (buf p))) (hash_index (buf (p + 1 + minimum_match - 1))))
          (tag_loop-bit_xor 30 (p + 1) 0 (hash_index (buf p)))
        ∙ ap (λ t. bit_xor t (hash_index (buf (p + 1 + minimum_match - 1))))
            (bit_xor_cancel (tag_loop hash_index buf 30 (p + 1) 0) (hash_index (buf p)))
        ∙ sym (tag_loop_last 30 (p + 1) 0 (p + 1 + minimum_match - 1) (omega arith)))
