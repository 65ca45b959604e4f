-- ===== src/Crypto/Derive.antt =====
-- util.c, key derivation: `hmac_sha512`, `pbkdf2_sha512`, `hkdf_expand_sha512` and
-- `lrz_aead_kdf_setup`. SHA-512 is a parameter: what `sha4_finish` gives for all bytes that the
-- context has been updated with. Secrets that are wiped are left out.
pub mod Rfc
pub mod Expand
pub mod Pbkdf2
use lrzip.Common.{
  ℕ, zero, suc, ◌+◌, ◌-◌, ◌*◌, ◌/◌, ◌%◌, ◌^◌, min, bit_xor, List, [], ◌∷◌, ◌++◌, map, length, take,
  drop, replicate, ltb, leb, ◌==◌, if◌then◌else◌, Bool, true, false, ◌||◌, ◌&&◌, Option, none, some,
  ◌>>=◌, ◌>>◌, require,
}

abbrev pub hash_len : ℕ
hash_len = 64

abbrev pub hmac_block : ℕ
hmac_block = 128

-- The bytes of two blocks of the same length, with `^`.
abbrev pub xor_bytes : List ℕ → List ℕ → List ℕ
xor_bytes [] ys = []
xor_bytes (x ∷ xs) [] = x ∷ xs
xor_bytes (x ∷ xs) (y ∷ ys) = bit_xor x y ∷ xor_bytes xs ys

-- The loop `while (offset < len)` of both expansions: the block of a state and the next state;
-- `MIN(len - offset, 64)` bytes of it are copied. `left` is `len - offset`.
unfoldable pub emit_loop {ℓ} : {S : Type ℓ} → (S → List ℕ × S) → ℕ → ℕ → S → List ℕ → List ℕ
emit_loop next zero left s out = out
emit_loop next (suc fuel) left s out =
    let rest =
      emit_loop next fuel (left - min left hash_len) ((next s).1)
        (out ++ take (min left hash_len) ((next s).0)) in
    if ltb 0 left then rest else out

module _ (sha512 : List ℕ → List ℕ) where
  -- A key of over 128 bytes is hashed first; the pads are zero behind the key.
  unfoldable pub hmac_key : List ℕ → List ℕ
  hmac_key key = if ltb hmac_block (length key) then sha512 key else key

  unfoldable pub padded : List ℕ → List ℕ
  padded k = k ++ replicate (hmac_block - length k) 0

  unfoldable pub hmac_sha512 : List ℕ → List ℕ → List ℕ
  hmac_sha512 key msg =
      let k = padded (hmac_key key) in
      sha512 (map (λ b. bit_xor b 0x5c) k ++ sha512 (map (λ b. bit_xor b 0x36) k ++ msg))

  -- `for (i = 1; i < iters; i++)`: `U` and `T` after `n` more rounds.
  unfoldable pub iterate_hmac : ℕ → List ℕ → List ℕ → List ℕ → List ℕ
  iterate_hmac zero pass u t = t
  iterate_hmac (suc n) pass u t =
      iterate_hmac n pass (hmac_sha512 pass u) (xor_bytes t (hmac_sha512 pass u))

  -- `block_index`, big-endian.
  unfoldable pub be32 : ℕ → List ℕ
  be32 i = (i / 2 ^ 24 % 256) ∷ (i / 2 ^ 16 % 256) ∷ (i / 2 ^ 8 % 256) ∷ (i % 256) ∷ []

  unfoldable pub pbkdf2_block : List ℕ → List ℕ → ℕ → ℕ → List ℕ
  pbkdf2_block pass salt iters i =
      let u = hmac_sha512 pass (salt ++ be32 i) in iterate_hmac (iters - 1) pass u u

  -- `none` is a return of false.
  unfoldable pub pbkdf2_sha512 : List ℕ → List ℕ → ℕ → ℕ → Option (List ℕ)
  pbkdf2_sha512 pass salt iters dk_len =
      if ltb iters 1 || ltb dk_len 1 || ltb 200 (length salt)
      then none
      else some
          (emit_loop (λ i. (pbkdf2_block pass salt iters i, (i + 1) % 2 ^ 32)) dk_len dk_len 1 [])

  -- `T`, of no bytes at first, and `counter`.
  unfoldable pub hkdf_next : List ℕ → List ℕ → List ℕ × ℕ → List ℕ × (List ℕ × ℕ)
  hkdf_next prk info s =
      let t = hmac_sha512 prk (s.0 ++ (info ++ (s.1 ∷ []))) in (t, (t, (s.1 + 1) % 256))

  unfoldable pub hkdf_expand_sha512 : List ℕ → List ℕ → ℕ → Option (List ℕ)
  hkdf_expand_sha512 prk info okm_len =
      if ltb okm_len 1 || ltb (255 * hash_len) okm_len
      then none
      else some (emit_loop (hkdf_next prk info) okm_len okm_len ([], 1) [])
