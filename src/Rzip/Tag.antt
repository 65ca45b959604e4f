-- ===== src/Rzip/Tag.antt =====
-- rzip.c, the rolling tag of the `minimum_match` bytes at a position.
pub mod Rolling
use lrzip.Common.{ℕ, zero, suc, ◌+◌, ◌-◌, bit_xor}
use lrzip.Rzip.Match.{minimum_match}

-- `hash_index` is the random table of `init_hash_indexes`, and `buf[i]` the byte at position i.
module _ (hash_index buf : ℕ → ℕ) where
  -- `for (i = 0; i < MINIMUM_MATCH; i++) ret ^= st->hash_index[buf[p + i]]`
  pub tag_loop : ℕ → ℕ → ℕ → ℕ
  tag_loop zero p ret = ret
  tag_loop (suc left) p ret = tag_loop left (p + 1) (bit_xor ret (hash_index (buf p)))

  unfoldable pub full_tag : ℕ → ℕ
  unfolding tag_loop
  full_tag p = tag_loop minimum_match p 0

  -- The tag at `p` from that at `p - 1`: one byte leaves, one enters.
  unfoldable pub next_tag : ℕ → ℕ → ℕ
  next_tag p t =
      bit_xor (bit_xor t (hash_index (buf (p - 1)))) (hash_index (buf (p + minimum_match - 1)))
