-- ===== src/Crypto/Derive/Pbkdf2.antt =====
-- `pbkdf2_sha512` against the blocks that RFC 8018 defines.
use lrzip.Common.{
  ℕ, zero, suc, ◌+◌, ◌-◌, ◌%◌, ◌^◌, ◌≤◌, ◌<◌, ◌≡◌, refl, ap, ap₂, ◌∙◌, arith, List, [], ◌∷◌, ◌++◌,
  length, take, ltb, false, some,
}
use lrzip.Crypto.Derive.{
  hash_len, xor_bytes, hmac_sha512, be32, iterate_hmac, pbkdf2_block, pbkdf2_sha512,
}
use lrzip.Crypto.Derive.Rfc.{f_block, pbkdf2_block-f_block}
use lrzip.Crypto.Derive.Expand.{blocks, emit_loop-blocks, length-take_blocks, length-hmac_sha512}

module _ (sha512 : List ℕ → List ℕ) (digest : (bs : List ℕ) → length (sha512 bs) ≡ hash_len) where
  length-xor_bytes : (xs ys : List ℕ) → length (xor_bytes xs ys) ≡ length xs
  length-xor_bytes [] ys = refl
  length-xor_bytes (x ∷ xs) [] = refl
  length-xor_bytes (x ∷ xs) (y ∷ ys) = ap suc (length-xor_bytes xs ys)

  length-iterate_hmac :
      (n : ℕ) (pass u t : List ℕ) → length (iterate_hmac sha512 n pass u t) ≡ length t
  unfolding iterate_hmac
  length-iterate_hmac zero pass u t = refl
  length-iterate_hmac (suc n) pass u t =
      length-iterate_hmac n pass (hmac_sha512 sha512 pass u) _
      ∙ length-xor_bytes t (hmac_sha512 sha512 pass u)

  length-pbkdf2_block :
      (pass salt : List ℕ) (iters i : ℕ) → length (pbkdf2_block sha512 pass salt iters i) ≡ hash_len
  unfolding pbkdf2_block
  length-pbkdf2_block pass salt iters i =
      length-iterate_hmac (iters - 1) pass _ _
      ∙ length-hmac_sha512 sha512 digest pass (salt ++ be32 sha512 i)

  -- F(i) | F(i + 1) | … of RFC 8018, of `n` blocks.
  abbrev pub pbkdf2_blocks : List ℕ → List ℕ → ℕ → ℕ → ℕ → List ℕ
  pbkdf2_blocks pass salt iters zero i = []
  pbkdf2_blocks pass salt iters (suc n) i =
      f_block sha512 pass salt iters i ++ pbkdf2_blocks pass salt iters n (i + 1)

  module _ (pass salt : List ℕ) (iters : ℕ) where
    abbrev pbkdf2_next : ℕ → List ℕ × ℕ
    pbkdf2_next i = (pbkdf2_block sha512 pass salt iters i, (i + 1) % 2 ^ 32)

    blocks-pbkdf2_blocks :
        (n i : ℕ)
        → 1 ≤ iters
        → i + n ≤ 2 ^ 32
        → blocks pbkdf2_next n i ≡ pbkdf2_blocks pass salt iters n i
    blocks-pbkdf2_blocks zero i rounds h = refl
    blocks-pbkdf2_blocks (suc zero) i rounds h =
        ap (λ t. t ++ []) (pbkdf2_block-f_block sha512 digest pass salt i iters rounds)
    blocks-pbkdf2_blocks (suc (suc n)) i rounds h =
        let e : (i + 1) % 2 ^ 32 ≡ i + 1 = omega arith in
        rw e (
          ap₂ ◌++◌ (pbkdf2_block-f_block sha512 digest pass salt i iters rounds)
            (blocks-pbkdf2_blocks (suc n) (i + 1) rounds (omega arith)))

    -- With a digest of 64 bytes, a salt of at most 200 bytes and one round at least,
    -- `pbkdf2_sha512` gives the first `dk_len` bytes of the blocks F (P, S, c, i) of RFC 8018,
    -- whose sums of c values are over the HMAC of RFC 2104, and `dk_len` of them, for every length
    -- from 1 to 2 ^ 32 - 1.
    pub pbkdf2_sha512-pbkdf2_blocks :
        (dk_len : ℕ)
        → 1 ≤ iters
        → length salt ≤ 200
        → 1 ≤ dk_len
        → dk_len < 2 ^ 32
        → (pbkdf2_sha512 sha512 pass salt iters dk_len
            ≡ some (take dk_len (pbkdf2_blocks pass salt iters dk_len 1)))
          × (length (take dk_len (pbkdf2_blocks pass salt iters dk_len 1)) ≡ dk_len)
    unfolding pbkdf2_sha512
    pbkdf2_sha512-pbkdf2_blocks dk_len rounds short one few =
        let a : ltb iters 1 ≡ false = ground arith in
        let b : ltb dk_len 1 ≡ false = ground arith in
        let c : ltb 200 (length salt) ≡ false = ground arith in
        let same = blocks-pbkdf2_blocks dk_len 1 rounds (omega arith) in
        (
          rw (a, b, c)
              (ap some (
                emit_loop-blocks pbkdf2_next (length-pbkdf2_block pass salt iters) dk_len dk_len 1
                  [] (omega arith)
                ∙ ap (take dk_len) same)),
          rw same at
              (length-take_blocks pbkdf2_next (length-pbkdf2_block pass salt iters) dk_len 1),
        )
