-- ===== src/Crypto/Aead.antt =====
-- util.c, sealed records: `aead_next_nonce`, `lrz_aead_seal` and `lrz_aead_open`. The AES-GCM functions
-- are parameters.
pub mod Open
pub mod Nonces
use lrzip.Common.{
  ℕ, zero, suc, ◌+◌, ◌-◌, ◌%◌, ◌^◌, ◌≤◌, ◌<◌, ◌≡◌, ◌≢◌, refl, sym, ap, ◌∙◌, arith, List, [], ◌∷◌,
  ◌++◌, length, take, drop, ltb, leb, ◌==◌, if◌then◌else◌, Bool, true, false, ◌||◌, ◌&&◌, Option,
  none, some, ◌>>=◌, ◌>>◌, require, length-append, take-append, drop-append, drop-append_ge,
  take-all, drop-drop, Bool-cases, inl, inr, append-nil,
}
use lrzip.Common.Bytes.{le_bytes, from_le, length-le_bytes, from_le-le_bytes}

abbrev pub nonce_len : ℕ
nonce_len = 12

abbrev pub tag_len : ℕ
tag_len = 16

-- `LRZ_AEAD_KEY_HDR` and `LRZ_AEAD_KEY_DATA`
abbrev pub key_hdr_id : ℕ
key_hdr_id = 0

abbrev pub key_data_id : ℕ
key_data_id = 1

-- The part of `struct rzip_control` that records are sealed with.
pub record Keys : Type 0 where
  pub nonce_prefix : List ℕ
  pub key_hdr : List ℕ
  pub key_data : List ℕ
  pub hdr_seq : ℕ
  pub data_seq : ℕ

abbrev pub seq_of : ℕ → Keys → ℕ
seq_of key_id ks = if key_id == key_hdr_id then ks.hdr_seq else ks.data_seq

-- `++control->aead_hdr_seq` or `++control->aead_data_seq`, of 64 bits.
unfoldable pub count_nonce : ℕ → Keys → Keys
count_nonce key_id ks =
    if key_id == key_hdr_id
    then record ks { hdr_seq = (ks.hdr_seq + 1) % 2 ^ 64 }
    else record ks { data_seq = (ks.data_seq + 1) % 2 ^ 64 }

-- The nonce, and the state with its number counted.
unfoldable pub aead_next_nonce : ℕ → Keys → List ℕ × Keys
aead_next_nonce key_id ks =
    let next = count_nonce key_id ks in (ks.nonce_prefix ++ le_bytes 8 (seq_of key_id next), next)

unfoldable pub aead_key : ℕ → Keys → List ℕ
aead_key key_id ks = if key_id == key_hdr_id then ks.key_hdr else ks.key_data

unfoldable pub is_key_id : ℕ → Bool
is_key_id key_id = key_id == key_hdr_id || key_id == key_data_id

-- `gcm_aes_encrypt(key, 256, nonce, aad, pt)` gives the ciphertext and the tag, `gcm_aes_decrypt` on
-- the key, the nonce, the additional data, the ciphertext and the tag the plaintext; `none` is a
-- return that is not 0.
module _ (gcm_aes_encrypt : List ℕ → List ℕ → List ℕ → List ℕ → Option (List ℕ × List ℕ))
    (gcm_aes_decrypt : List ℕ → List ℕ → List ℕ → List ℕ → List ℕ → Option (List ℕ)) where
  -- `room` is `*out_len`; the result is `out` and the state.
  unfoldable pub lrz_aead_seal : Keys → ℕ → List ℕ → List ℕ → ℕ → Option (List ℕ × Keys)
  lrz_aead_seal ks key_id aad pt room = do
    require (leb (nonce_len + length pt + tag_len) room)
    require (is_key_id key_id)
    let n = aead_next_nonce key_id ks
    c ← gcm_aes_encrypt (aead_key key_id (n.1)) (n.0) aad pt
    some (n.0 ++ (c.0 ++ c.1), n.1)

  -- `room` is `*pt_len`.
  unfoldable pub lrz_aead_open : Keys → ℕ → List ℕ → List ℕ → ℕ → Option (List ℕ)
  lrz_aead_open ks key_id aad bytes room = do
    require (leb (nonce_len + tag_len) (length bytes))
    require (is_key_id key_id)
    let clen = length bytes - nonce_len - tag_len
    require (leb clen room)
    gcm_aes_decrypt (aead_key key_id ks) (take nonce_len bytes) aad
        (take clen (drop nonce_len bytes)) (take tag_len (drop (nonce_len + clen) bytes))

  -- What AES-GCM promises of an encryption that succeeds.
  pub record IsGcm : Type 0 where
    pub text_len :
        (key nonce aad pt ct tag : List ℕ)
        → gcm_aes_encrypt key nonce aad pt ≡ some (ct, tag)
        → length ct ≡ length pt
    pub tag_len :
        (key nonce aad pt ct tag : List ℕ)
        → gcm_aes_encrypt key nonce aad pt ≡ some (ct, tag)
        → length tag ≡ 16
    pub opens :
        (key nonce aad pt ct tag : List ℕ)
        → gcm_aes_encrypt key nonce aad pt ≡ some (ct, tag)
        → gcm_aes_decrypt key nonce aad ct tag ≡ some pt
