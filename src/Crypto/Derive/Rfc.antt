-- ===== src/Crypto/Derive/Rfc.antt =====
-- What RFC 2104 and RFC 8018 define, apart from the code: HMAC, and the blocks of PBKDF2. SHA-512 is
-- a parameter, with blocks of 128 bytes and digests of 64.
use lrzip.Common.{
  ℕ, zero, suc, ◌+◌, ◌-◌, ◌/◌, ◌%◌, ◌^◌, ◌≤◌, ◌≡◌, refl, sym, ap, ap₂, ◌∙◌, arith, bit_xor, List,
  [], ◌∷◌, ◌++◌, map, length, replicate, ltb, if◌then◌else◌, Bool-cases, inl, inr, length-append,
  length-replicate,
}
use lrzip.Crypto.Derive.{
  hash_len, xor_bytes, hmac_key, padded, hmac_sha512, iterate_hmac, be32, pbkdf2_block,
}

-- Octet by octet, as far as both go.
abbrev pub xor_each : List ℕ → List ℕ → List ℕ
xor_each (x ∷ xs) (y ∷ ys) = bit_xor x y ∷ xor_each xs ys
xor_each xs ys = []

-- INT (i): `n` octets, the most significant one first.
abbrev pub int_octets : ℕ → ℕ → List ℕ
int_octets zero i = []
int_octets (suc n) i = int_octets n (i / 256) ++ ((i % 256) ∷ [])

xor_bytes-xor_each : (xs ys : List ℕ) → length xs ≡ length ys → xor_bytes xs ys ≡ xor_each xs ys
xor_bytes-xor_each [] ys h = refl
xor_bytes-xor_each (x ∷ xs) [] h = absurd (omega arith)
xor_bytes-xor_each (x ∷ xs) (y ∷ ys) h =
    ap (λ t. bit_xor x y ∷ t) (xor_bytes-xor_each xs ys (omega arith))

length-xor_each : (xs ys : List ℕ) → length xs ≡ length ys → length (xor_each xs ys) ≡ length xs
length-xor_each [] ys h = refl
length-xor_each (x ∷ xs) [] h = absurd (omega arith)
length-xor_each (x ∷ xs) (y ∷ ys) h = ap suc (length-xor_each xs ys (omega arith))

xor_each-replicate :
    (n c : ℕ) (xs : List ℕ)
    → length xs ≡ n
    → map (λ b. bit_xor b c) xs ≡ xor_each xs (replicate n c)
xor_each-replicate zero c [] h = refl
xor_each-replicate (suc n) c [] h = absurd (omega arith)
xor_each-replicate zero c (x ∷ xs) h = absurd (omega arith)
xor_each-replicate (suc n) c (x ∷ xs) h =
    ap (λ t. bit_xor x c ∷ t) (xor_each-replicate n c xs (omega arith))

be32-int_octets : (sha512 : List ℕ → List ℕ) (i : ℕ) → be32 sha512 i ≡ int_octets 4 i
unfolding be32
be32-int_octets sha512 i =
    let a : i / 2 ^ 24 % 256 ≡ i / 256 / 256 / 256 % 256 = omega arith in
    let b : i / 2 ^ 16 % 256 ≡ i / 256 / 256 % 256 = omega arith in
    let c : i / 2 ^ 8 % 256 ≡ i / 256 % 256 = omega arith in rw (a, b, c) refl

module _ (sha512 : List ℕ → List ℕ) where
  -- H (K XOR opad, H (K XOR ipad, text)) of RFC 2104, K with zeros up to the block's length.
  abbrev pub block_key : List ℕ → List ℕ
  block_key key =
      let k : List ℕ = if ltb 128 (length key) then sha512 key else key in
      k ++ replicate (128 - length k) 0

  abbrev pub hmac : List ℕ → List ℕ → List ℕ
  hmac key text = sha512 (
      xor_each (block_key key) (replicate 128 0x5c)
      ++ sha512 (xor_each (block_key key) (replicate 128 0x36) ++ text))

  -- U_1 = PRF (P, S | INT (i)) and U_(j + 1) = PRF (P, U_j); here from 0 on.
  abbrev pub u_value : List ℕ → List ℕ → ℕ → ℕ → List ℕ
  u_value pass salt i zero = hmac pass (salt ++ int_octets 4 i)
  u_value pass salt i (suc j) = hmac pass (u_value pass salt i j)

  -- U_1 XOR U_2 XOR … up to the value `j`.
  abbrev pub u_sum : List ℕ → List ℕ → ℕ → ℕ → List ℕ
  u_sum pass salt i zero = u_value pass salt i zero
  u_sum pass salt i (suc j) = xor_each (u_sum pass salt i j) (u_value pass salt i (suc j))

  -- F (P, S, c, i) of RFC 8018: the sum of `c` values.
  abbrev pub f_block : List ℕ → List ℕ → ℕ → ℕ → List ℕ
  f_block pass salt zero i = []
  f_block pass salt (suc c) i = u_sum pass salt i c

  module _ (digest : (bs : List ℕ) → length (sha512 bs) ≡ hash_len) where
    length-block_key : (key : List ℕ) → length (block_key key) ≡ 128
    length-block_key key = elim (Bool-cases (ltb 128 (length key))) [
      | inl e ↦ rw e (
          omega (
            arith,
            digest key,
            length-append (sha512 key) (replicate (128 - length (sha512 key)) 0),
            length-replicate {A = ℕ} (128 - length (sha512 key)) 0,
          ))
      | inr e ↦
          let short : length key ≤ 128 = ground arith in
          rw e (
            omega (
              arith,
              short,
              length-append key (replicate (128 - length key) 0),
              length-replicate {A = ℕ} (128 - length key) 0,
            ))
    ]

    -- The code's HMAC is that of RFC 2104.
    pub hmac_sha512-hmac : (key text : List ℕ) → hmac_sha512 sha512 key text ≡ hmac key text
    unfolding hmac_sha512 hmac_key padded
    hmac_sha512-hmac key text =
        let outer = xor_each-replicate 128 0x5c (block_key key) (length-block_key key) in
        let inner = xor_each-replicate 128 0x36 (block_key key) (length-block_key key) in
        ap₂ (λ o i. sha512 (o ++ sha512 (i ++ text))) outer inner

    module _ (pass salt : List ℕ) (i : ℕ) where
      length-u_value : (j : ℕ) → length (u_value pass salt i j) ≡ hash_len
      length-u_value zero = digest _
      length-u_value (suc j) = digest _

      length-u_sum : (j : ℕ) → length (u_sum pass salt i j) ≡ hash_len
      length-u_sum zero = digest _
      length-u_sum (suc j) =
          length-xor_each _ _ (length-u_sum j ∙ sym (length-u_value (suc j))) ∙ length-u_sum j

      iterate_hmac-u_sum :
          (n j : ℕ)
          → iterate_hmac sha512 n pass (u_value pass salt i j) (u_sum pass salt i j)
            ≡ u_sum pass salt i (n + j)
      unfolding iterate_hmac
      iterate_hmac-u_sum zero j = let e : 0 + j ≡ j = omega arith in rw e refl
      iterate_hmac-u_sum (suc n) j =
          let e : suc n + j ≡ n + suc j = omega arith in
          let x =
            xor_bytes-xor_each (u_sum pass salt i j) (u_value pass salt i (suc j))
              (length-u_sum j ∙ sym (length-u_value (suc j))) in
          ap₂ (iterate_hmac sha512 n pass) (hmac_sha512-hmac pass _)
            (ap (xor_bytes (u_sum pass salt i j)) (hmac_sha512-hmac pass _) ∙ x)
          ∙ iterate_hmac-u_sum n (suc j)
          ∙ ap (u_sum pass salt i) (sym e)

      -- The code's block is that of RFC 8018.
      pub pbkdf2_block-f_block :
          (iters : ℕ)
          → 1 ≤ iters
          → pbkdf2_block sha512 pass salt iters i ≡ f_block pass salt iters i
      unfolding pbkdf2_block
      pbkdf2_block-f_block zero h = absurd (omega arith)
      pbkdf2_block-f_block (suc c) h =
          let u : hmac_sha512 sha512 pass (salt ++ be32 sha512 i) ≡ u_value pass salt i zero =
            hmac_sha512-hmac pass _ ∙ ap (λ t. hmac pass (salt ++ t)) (be32-int_octets sha512 i) in
          let e : c + 0 ≡ c = omega arith in
          let less : suc c - 1 ≡ c = omega arith in
          let code = hmac_sha512 sha512 pass (salt ++ be32 sha512 i) in
          ap (λ k. iterate_hmac sha512 k pass code code) less
          ∙ ap₂ (iterate_hmac sha512 c pass) u u
          ∙ iterate_hmac-u_sum c 0
          ∙ ap (u_sum pass salt i) e
