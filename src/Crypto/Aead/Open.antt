-- ===== src/Crypto/Aead/Open.antt =====
-- What is sealed can be opened.
use lrzip.Common.{
  ℕ, ◌+◌, ◌-◌, ◌≤◌, ◌≡◌, refl, ◌∙◌, arith, List, ◌++◌, length, drop, leb, true, Option, some,
  length-append, take-append, drop-append, drop-append_ge, take-all,
}
use lrzip.Common.Bytes.{le_bytes, length-le_bytes}
use lrzip.Crypto.Aead.{
  Keys, nonce_len, tag_len, seq_of, count_nonce, aead_next_nonce, aead_key, is_key_id,
  lrz_aead_seal, lrz_aead_open, IsGcm,
}

module _ (gcm_aes_encrypt : List ℕ → List ℕ → List ℕ → List ℕ → Option (List ℕ × List ℕ))
    (gcm_aes_decrypt : List ℕ → List ℕ → List ℕ → List ℕ → List ℕ → Option (List ℕ))
    (gcm : IsGcm gcm_aes_encrypt gcm_aes_decrypt) where
  length-aead_next_nonce :
      (key_id : ℕ) (ks : Keys)
      → length ks.nonce_prefix ≡ 4
      → length (aead_next_nonce key_id ks).0 ≡ nonce_len
  unfolding aead_next_nonce
  length-aead_next_nonce key_id ks h = omega (
    arith,
    length-append ks.nonce_prefix (le_bytes 8 (seq_of key_id (count_nonce key_id ks))),
    length-le_bytes 8 (seq_of key_id (count_nonce key_id ks)),
  )

  -- The parts of a sealed record.
  lrz_aead_open-parts :
      (reader : Keys) (key_id : ℕ) (aad nonce ct tag pt : List ℕ) (room : ℕ)
      → length nonce ≡ nonce_len
      → length tag ≡ tag_len
      → is_key_id key_id ≡ true
      → length ct ≤ room
      → gcm_aes_decrypt (aead_key key_id reader) nonce aad ct tag ≡ some pt
      → lrz_aead_open gcm_aes_encrypt gcm_aes_decrypt reader key_id aad (nonce ++ (ct ++ tag)) room
        ≡ some pt
  unfolding lrz_aead_open
  lrz_aead_open-parts reader key_id aad nonce ct tag pt room hn ht id fits e =
      rw
        (
          long,
          id,
          clen,
          space,
          take-append nonce_len nonce (ct ++ tag) hn,
          drop-append nonce_len nonce (ct ++ tag) hn,
          take-append (length ct) ct tag refl,
          behind,
          take-all tag_len tag (omega arith),
        )
        e
    where
      total : length (nonce ++ (ct ++ tag)) ≡ nonce_len + (length ct + tag_len)
      total = omega (arith, length-append nonce (ct ++ tag), length-append ct tag)

      long : leb (nonce_len + tag_len) (length (nonce ++ (ct ++ tag))) ≡ true
      long = ground (arith, total)

      clen : length (nonce ++ (ct ++ tag)) - nonce_len - tag_len ≡ length ct
      clen = omega (arith, total)

      space : leb (length ct) room ≡ true
      space = ground arith

      behind : drop (nonce_len + length ct) (nonce ++ (ct ++ tag)) ≡ tag
      behind =
          let r : nonce_len + length ct - length nonce ≡ length ct = omega arith in
          drop-append_ge (nonce_len + length ct) nonce (ct ++ tag) (omega arith)
          ∙ rw r (drop-append (length ct) ct tag refl)

  -- Where AES-GCM encrypts and keeps its promises, the nonce's prefix has four bytes, the key id
  -- is known and both buffers have room, `lrz_aead_seal` returns a record of 28 bytes more than
  -- the plaintext, counts the nonce, and any holder of the key opens the record to the plaintext.
  pub lrz_aead_open-lrz_aead_seal :
      (ks reader : Keys) (key_id : ℕ) (aad pt ct tag : List ℕ) (room space : ℕ)
      → length ks.nonce_prefix ≡ 4
      → is_key_id key_id ≡ true
      → nonce_len + length pt + tag_len ≤ room
      → length pt ≤ space
      → aead_key key_id reader ≡ aead_key key_id (count_nonce key_id ks)
      → gcm_aes_encrypt
          (aead_key key_id (count_nonce key_id ks))
          (aead_next_nonce key_id ks).0
          aad
          pt
        ≡ some (ct, tag)
      → (out : List ℕ) × (lrz_aead_seal gcm_aes_encrypt gcm_aes_decrypt ks key_id aad pt room
          ≡ some (out, count_nonce key_id ks))
        × (length out ≡ length pt + 28)
        × (lrz_aead_open gcm_aes_encrypt gcm_aes_decrypt reader key_id aad out space ≡ some pt)
  unfolding lrz_aead_seal aead_next_nonce
  lrz_aead_open-lrz_aead_seal ks reader key_id aad pt ct tag room space prefix id fits fits' same
        e =
      let enough : leb (nonce_len + length pt + tag_len) room ≡ true = ground arith in
      (
        nonce ++ (ct ++ tag),
        rw (enough, id, e) refl,
        omega (arith, length-append nonce (ct ++ tag), length-append ct tag, hn, ht, hc),
        lrz_aead_open-parts reader key_id aad nonce ct tag pt space hn ht id (omega (arith, hc))
            (rw same (gcm.opens _ nonce aad pt ct tag e)),
      )
    where
      nonce : List ℕ
      nonce = (aead_next_nonce key_id ks).0

      hn : length nonce ≡ nonce_len
      hn = length-aead_next_nonce key_id ks prefix

      hc : length ct ≡ length pt
      hc = gcm.text_len _ nonce aad pt ct tag e

      ht : length tag ≡ 16
      ht = gcm.tag_len _ nonce aad pt ct tag e
