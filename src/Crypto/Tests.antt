-- ===== src/Crypto/Tests.antt =====
-- Concrete runs: the theorems on keys and sealed records, at an input where their hypotheses hold.
use lrzip.Common.{
  ℕ, ◌+◌, ◌≡◌, ◌≢◌, refl, sym, ap, arith, List, [], ◌∷◌, length, take, replicate, Option, none,
  some,
}
use lrzip.Crypto.Derive.{pbkdf2_sha512, hkdf_expand_sha512}
use lrzip.Crypto.Derive.Expand.{hkdf_blocks, hkdf_expand_sha512-hkdf_blocks}
use lrzip.Crypto.Derive.Pbkdf2.{pbkdf2_blocks, pbkdf2_sha512-pbkdf2_blocks}
use lrzip.Crypto.Setup.{IsSetup, master_key, lrz_aead_kdf_setup, lrz_aead_kdf_setup-IsSetup}
use lrzip.Crypto.Aead.{
  Keys, is_key_id, aead_key, IsGcm, count_nonce, aead_next_nonce, lrz_aead_seal, lrz_aead_open,
}
use lrzip.Crypto.Aead.Open.{lrz_aead_open-lrz_aead_seal}
use lrzip.Crypto.Aead.Nonces.{after_nonces, aead_next_nonce-fresh}

-- A digest that is the length of its input, in 64 bytes.
abbrev count_bytes : List ℕ → List ℕ
count_bytes bs = replicate 64 (length bs)

count_bytes-digest : (bs : List ℕ) → length (count_bytes bs) ≡ 64
count_bytes-digest bs = refl

abbrev two_bytes : List ℕ
two_bytes = 1 ∷ 2 ∷ []

hkdf_expand_sha512-hkdf_blocks_example :
    hkdf_expand_sha512 count_bytes two_bytes two_bytes 100
    ≡ some (take 100 (hkdf_blocks count_bytes count_bytes-digest two_bytes two_bytes 255 1 []))
hkdf_expand_sha512-hkdf_blocks_example =
    hkdf_expand_sha512-hkdf_blocks count_bytes count_bytes-digest two_bytes two_bytes 100
      (omega arith) (omega arith)

pbkdf2_sha512-pbkdf2_blocks_example :
    (pbkdf2_sha512 count_bytes two_bytes two_bytes 3 100
      ≡ some (take 100 (pbkdf2_blocks count_bytes count_bytes-digest two_bytes two_bytes 3 100 1)))
    × (length (take 100 (pbkdf2_blocks count_bytes count_bytes-digest two_bytes two_bytes 3 100 1))
        ≡ 100)
pbkdf2_sha512-pbkdf2_blocks_example =
    pbkdf2_sha512-pbkdf2_blocks count_bytes count_bytes-digest two_bytes two_bytes 3 100
      (omega arith) (omega arith) (omega arith) (omega arith)

abbrev nine_bytes : List ℕ
nine_bytes = replicate 9 5

lrz_aead_kdf_setup-IsSetup_example :
    (ks : Keys) × (lrz_aead_kdf_setup count_bytes nine_bytes two_bytes 3 (some two_bytes) ≡ some ks)
    × IsSetup count_bytes count_bytes-digest
        (master_key count_bytes count_bytes-digest nine_bytes two_bytes 3 two_bytes)
        two_bytes
        ks
lrz_aead_kdf_setup-IsSetup_example =
    lrz_aead_kdf_setup-IsSetup count_bytes count_bytes-digest nine_bytes two_bytes 3 two_bytes
      (omega arith) (omega arith) (omega arith) (omega arith)

-- A cipher that encrypts nothing, with a tag of zeros.
abbrev null_encrypt : List ℕ → List ℕ → List ℕ → List ℕ → Option (List ℕ × List ℕ)
null_encrypt key nonce aad pt = some (pt, replicate 16 0)

abbrev null_decrypt : List ℕ → List ℕ → List ℕ → List ℕ → List ℕ → Option (List ℕ)
null_decrypt key nonce aad ct tag = some ct

abbrev text_of : Option (List ℕ × List ℕ) → List ℕ
text_of none = []
text_of (some c) = c.0

abbrev tag_of : Option (List ℕ × List ℕ) → List ℕ
tag_of none = []
tag_of (some c) = c.1

null-IsGcm : IsGcm null_encrypt null_decrypt
null-IsGcm = record {
  text_len = λ key nonce aad pt ct tag e. sym (ap (λ c. length (text_of c)) e);
  tag_len = λ key nonce aad pt ct tag e. sym (ap (λ c. length (tag_of c)) e);
  opens = λ key nonce aad pt ct tag e. sym (ap (λ c. some (text_of c)) e);
}

abbrev four_keys : Keys
four_keys = record {
  nonce_prefix = replicate 4 7;
  key_hdr = replicate 32 1;
  key_data = replicate 32 2;
  hdr_seq = 5;
  data_seq = 6;
}

lrz_aead_open-lrz_aead_seal_example :
    (out : List ℕ) × (lrz_aead_seal null_encrypt null_decrypt four_keys 1 [] two_bytes 30
      ≡ some (out, count_nonce 1 four_keys))
    × (length out ≡ length two_bytes + 28)
    × (lrz_aead_open null_encrypt null_decrypt four_keys 1 [] out 2 ≡ some two_bytes)
unfolding count_nonce is_key_id aead_key
lrz_aead_open-lrz_aead_seal_example =
    lrz_aead_open-lrz_aead_seal null_encrypt null_decrypt null-IsGcm four_keys four_keys 1 []
      two_bytes two_bytes (replicate 16 0) 30 2 refl refl (omega arith) (omega arith) refl refl

aead_next_nonce-fresh_example :
    (aead_next_nonce 1 (after_nonces (0 ∷ 1 ∷ []) (aead_next_nonce 1 four_keys).1)).0
    ≢ (aead_next_nonce 1 four_keys).0
aead_next_nonce-fresh_example = aead_next_nonce-fresh 1 (0 ∷ 1 ∷ []) four_keys (omega arith)
