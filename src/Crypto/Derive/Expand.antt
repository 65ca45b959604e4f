-- ===== src/Crypto/Derive/Expand.antt =====
-- The loops of the key derivation against the blocks that RFC 8018 and RFC 5869 define.
use lrzip.Common.{
  ℕ, zero, suc, ◌+◌, ◌-◌, ◌*◌, ◌%◌, ◌≤◌, min, ◌≡◌, refl, sym, ap, ◌∙◌, arith, List, [], ◌∷◌, ◌++◌,
  length, take, ltb, leb, false, some, Bool-cases, inl, inr, append_assoc, append-nil,
  take-append_le, take-append_ge, take-all, length-append, length-take,
}
use lrzip.Crypto.Derive.{hash_len, emit_loop, hmac_sha512, hkdf_next, hkdf_expand_sha512}
use lrzip.Crypto.Derive.Rfc.{hmac, hmac_sha512-hmac}

-- The first `n` blocks that a state gives, one behind the other.
abbrev pub blocks {ℓ} : {S : Type ℓ} → (S → List ℕ × S) → ℕ → S → List ℕ
blocks next zero s = []
blocks next (suc n) s = (next s).0 ++ blocks next n ((next s).1)

module _ {ℓ} {S : Type ℓ} (next : S → List ℕ × S)
    (full : (s : S) → length (next s).0 ≡ hash_len) where
  take_blocks :
      (left n : ℕ) (s : S)
      → take (min left hash_len) ((next s).0)
          ++ take (left - min left hash_len) (blocks next n ((next s).1))
        ≡ take left (blocks next (suc n) s)
  take_blocks left n s = elim (Bool-cases (ltb left hash_len)) [
    | inl e ↦
        let a : min left hash_len ≡ left = ground arith in
        let b : left - left ≡ 0 = omega arith in
        rw (a, b)
          (append-nil (take left ((next s).0))
            ∙ sym (take-append_le left _ _ (ground (arith, full s))))
    | inr e ↦
        let a : min left hash_len ≡ hash_len = ground arith in
        let c : left - hash_len ≡ left - length (next s).0 = omega (arith, full s) in
        rw (a, c)
          (ap (λ t. t ++ take (left - length (next s).0) (blocks next n ((next s).1)))
              (take_exact (next s).0 (full s))
            ∙ sym (take-append_ge left _ _ (ground (arith, full s))))
  ]
    where
      take_exact : (xs : List ℕ) → length xs ≡ hash_len → take hash_len xs ≡ xs
      take_exact xs h = take-all hash_len xs (omega arith)

  pub emit_loop-blocks :
      (fuel left : ℕ) (s : S) (out : List ℕ)
      → left ≤ fuel
      → emit_loop next fuel left s out ≡ out ++ take left (blocks next fuel s)
  unfolding emit_loop
  emit_loop-blocks zero left s out h = let z : left ≡ 0 = omega arith in rw z (sym (append-nil out))
  emit_loop-blocks (suc fuel) left s out h = elim (Bool-cases (ltb 0 left)) [
    | inl e ↦ rw e (
        emit_loop-blocks fuel (left - min left hash_len) ((next s).1) _ (ground arith)
        ∙ append_assoc out _ _
        ∙ ap (λ t. out ++ t) (take_blocks left fuel s))
    | inr e ↦ let z : left ≡ 0 = ground arith in rw (e, z) (sym (append-nil out))
  ]

  length-blocks : (n : ℕ) (s : S) → length (blocks next n s) ≡ hash_len * n
  length-blocks zero s = refl
  length-blocks (suc n) s = omega (
    arith,
    length-append ((next s).0) (blocks next n ((next s).1)),
    full s,
    length-blocks n ((next s).1),
  )

  more_blocks :
      (m d : ℕ) (s : S) → (rest : List ℕ) × (blocks next (m + d) s ≡ blocks next m s ++ rest)
  more_blocks zero d s = let e : 0 + d ≡ d = omega arith in (blocks next d s, rw e refl)
  more_blocks (suc m) d s =
      let e : suc m + d ≡ suc (m + d) = omega arith in
      let (rest, h) = more_blocks m d ((next s).1) in
      (rest, rw e (ap (λ t. (next s).0 ++ t) h ∙ sym (append_assoc ((next s).0) _ rest)))

  enough_blocks :
      (left m n : ℕ) (s : S)
      → left ≤ hash_len * m
      → m ≤ n
      → take left (blocks next n s) ≡ take left (blocks next m s)
  enough_blocks left m n s h le =
      let e : n ≡ m + (n - m) = omega arith in
      let (rest, q) = more_blocks m (n - m) s in
      ap (λ k. take left (blocks next k s)) e
      ∙ ap (take left) q
      ∙ take-append_le left (blocks next m s) rest (omega (arith, length-blocks m s))

  -- Any two numbers of blocks that are enough give the same bytes.
  pub same_blocks :
      (left m n : ℕ) (s : S)
      → left ≤ hash_len * m
      → left ≤ hash_len * n
      → take left (blocks next m s) ≡ take left (blocks next n s)
  same_blocks left m n s h k = elim (Bool-cases (leb m n)) [
    | inl e ↦ sym (enough_blocks left m n s h (ground arith))
    | inr e ↦ enough_blocks left n m s k (ground arith)
  ]

  pub length-take_blocks : (left : ℕ) (s : S) → length (take left (blocks next left s)) ≡ left
  length-take_blocks left s =
      omega (arith, length-take left (blocks next left s), length-blocks left s)

module _ (sha512 : List ℕ → List ℕ) (digest : (bs : List ℕ) → length (sha512 bs) ≡ hash_len) where
  pub length-hmac_sha512 : (key msg : List ℕ) → length (hmac_sha512 sha512 key msg) ≡ hash_len
  unfolding hmac_sha512
  length-hmac_sha512 key msg = digest _

  length-hkdf_next :
      (prk info : List ℕ) (s : List ℕ × ℕ) → length (hkdf_next sha512 prk info s).0 ≡ hash_len
  unfolding hkdf_next
  length-hkdf_next prk info s = length-hmac_sha512 prk _

  -- T(i) | T(i + 1) | … of RFC 5869, of `n` blocks behind `t`: T(i) = HMAC(PRK, T(i - 1) | info | i).
  abbrev pub hkdf_blocks : List ℕ → List ℕ → ℕ → ℕ → List ℕ → List ℕ
  hkdf_blocks prk info zero i t = []
  hkdf_blocks prk info (suc n) i t =
      let t' = hmac sha512 prk (t ++ (info ++ (i ∷ []))) in t' ++ hkdf_blocks prk info n (i + 1) t'

  blocks-hkdf_blocks :
      (prk info : List ℕ) (n i : ℕ) (t : List ℕ)
      → i + n ≤ 256
      → blocks (hkdf_next sha512 prk info) n (t, i) ≡ hkdf_blocks prk info n i t
  unfolding hkdf_next
  blocks-hkdf_blocks prk info zero i t h = refl
  blocks-hkdf_blocks prk info (suc zero) i t h =
      ap (λ u. u ++ []) (hmac_sha512-hmac sha512 digest prk _)
  blocks-hkdf_blocks prk info (suc (suc n)) i t h =
      let e : (i + 1) % 256 ≡ i + 1 = omega arith in
      rw (e, hmac_sha512-hmac sha512 digest prk (t ++ (info ++ (i ∷ []))))
        (ap (λ u. hmac sha512 prk (t ++ (info ++ (i ∷ []))) ++ u)
          (blocks-hkdf_blocks prk info (suc n) (i + 1) _ (omega arith)))

  -- With a digest of 64 bytes, `hkdf_expand_sha512` gives the first `okm_len` bytes of the blocks
  -- of RFC 5869, for every length from 1 to 255 * 64.
  pub hkdf_expand_sha512-hkdf_blocks :
      (prk info : List ℕ) (okm_len : ℕ)
      → 1 ≤ okm_len
      → okm_len ≤ 255 * hash_len
      → hkdf_expand_sha512 sha512 prk info okm_len
        ≡ some (take okm_len (hkdf_blocks prk info 255 1 []))
  unfolding hkdf_expand_sha512
  hkdf_expand_sha512-hkdf_blocks prk info okm_len one few =
      let a : ltb okm_len 1 ≡ false = ground arith in
      let b : ltb (255 * hash_len) okm_len ≡ false = ground arith in
      rw (a, b)
        (ap some (
          emit_loop-blocks (hkdf_next sha512 prk info) (length-hkdf_next prk info) okm_len okm_len
            ([], 1) [] (omega arith)
          ∙ same_blocks (hkdf_next sha512 prk info) (length-hkdf_next prk info) okm_len okm_len 255
              ([], 1) (omega arith) (omega arith)
          ∙ ap (take okm_len) (blocks-hkdf_blocks prk info 255 1 [] (omega arith))))

  pub length-hkdf_blocks :
      (prk info : List ℕ) (okm_len : ℕ)
      → okm_len ≤ 255 * hash_len
      → length (take okm_len (hkdf_blocks prk info 255 1 [])) ≡ okm_len
  length-hkdf_blocks prk info okm_len few = omega (
    arith,
    length-take okm_len (hkdf_blocks prk info 255 1 []),
    ap length (blocks-hkdf_blocks prk info 255 1 [] (omega arith)),
    length-blocks (hkdf_next sha512 prk info) (length-hkdf_next prk info) 255 ([], 1),
  )
