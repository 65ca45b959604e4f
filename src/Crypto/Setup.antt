-- ===== src/Crypto/Setup.antt =====
-- util.c, `lrz_aead_kdf_setup`: the keys of an archive from the passphrase.
use lrzip.Common.{
  ℕ, ◌≤◌, ◌<◌, ◌≡◌, refl, arith, List, [], ◌∷◌, length, take, drop, leb, true, ◌&&◌, Option, some,
  ◌>>=◌, ◌>>◌, require, length-drop,
}
use lrzip.Crypto.Derive.{hash_len, pbkdf2_sha512, hkdf_expand_sha512}
use lrzip.Crypto.Derive.Expand.{hkdf_blocks, hkdf_expand_sha512-hkdf_blocks, length-hkdf_blocks}
use lrzip.Crypto.Derive.Pbkdf2.{pbkdf2_blocks, pbkdf2_sha512-pbkdf2_blocks}
use lrzip.Crypto.Aead.{Keys}

abbrev pub salt_len : ℕ
salt_len = 8

abbrev pub aead_key_len : ℕ
aead_key_len = 32

abbrev pub iters_max : ℕ
iters_max = 5000000

-- "lrzip-v3-hdr" and "lrzip-v3-data"
abbrev pub info_hdr : List ℕ
info_hdr = 108 ∷ 114 ∷ 122 ∷ 105 ∷ 112 ∷ 45 ∷ 118 ∷ 51 ∷ 45 ∷ 104 ∷ 100 ∷ 114 ∷ []

abbrev pub info_data : List ℕ
info_data = 108 ∷ 114 ∷ 122 ∷ 105 ∷ 112 ∷ 45 ∷ 118 ∷ 51 ∷ 45 ∷ 100 ∷ 97 ∷ 116 ∷ 97 ∷ []

-- `rand` is what `get_rand` gives for the four bytes of the nonce's prefix, `none` its failure.
unfoldable pub lrz_aead_kdf_setup :
    (List ℕ → List ℕ) → List ℕ → List ℕ → ℕ → Option (List ℕ) → Option Keys
lrz_aead_kdf_setup sha512 salt_pass aead_salt iters rand = do
  require (leb salt_len (length salt_pass))
  require (leb 1 iters && leb iters iters_max)
  let pass = drop salt_len salt_pass
  require (leb 1 (length pass))
  master ← pbkdf2_sha512 sha512 pass aead_salt iters hash_len
  hdr ← hkdf_expand_sha512 sha512 master info_hdr aead_key_len
  data_key ← hkdf_expand_sha512 sha512 master info_data aead_key_len
  prefix ← rand
  some (record {
    nonce_prefix = prefix;
    key_hdr = hdr;
    key_data = data_key;
    hdr_seq = 0;
    data_seq = 0;
  })

-- What a set-up promises: two keys of 32 bytes from the passphrase's master key, and fresh counters.
pub record IsSetup (sha512 : List ℕ → List ℕ)
    (digest : (bs : List ℕ) → length (sha512 bs) ≡ hash_len) (master random : List ℕ) (ks : Keys)
    : Type 0 where
  pub hdr : ks.key_hdr ≡ take aead_key_len (hkdf_blocks sha512 digest master info_hdr 255 1 [])
  pub data_key :
      ks.key_data ≡ take aead_key_len (hkdf_blocks sha512 digest master info_data 255 1 [])
  pub hdr_len : length ks.key_hdr ≡ aead_key_len
  pub data_len : length ks.key_data ≡ aead_key_len
  pub prefix : ks.nonce_prefix ≡ random
  pub hdr_fresh : ks.hdr_seq ≡ 0
  pub data_fresh : ks.data_seq ≡ 0

module _ (sha512 : List ℕ → List ℕ) (digest : (bs : List ℕ) → length (sha512 bs) ≡ hash_len)
    (salt_pass aead_salt : List ℕ) (iters : ℕ) (random : List ℕ) where
  -- The master key of RFC 8018, from the passphrase behind the eight bytes of salt.
  abbrev pub master_key : List ℕ
  master_key =
      take hash_len
        (pbkdf2_blocks sha512 digest (drop salt_len salt_pass) aead_salt iters hash_len 1)

  -- With a digest of 64 bytes, a passphrase behind the eight bytes of salt, a salt of at most 200
  -- bytes, an iteration count in range and random bytes, `lrz_aead_kdf_setup` returns two keys of
  -- 32 bytes, of RFC 5869 under the master key of RFC 8018, the random bytes as the prefix of
  -- nonces, and both counters at 0.
  pub lrz_aead_kdf_setup-IsSetup :
      salt_len < length salt_pass
      → length aead_salt ≤ 200
      → 1 ≤ iters
      → iters ≤ iters_max
      → (ks : Keys) × (lrz_aead_kdf_setup sha512 salt_pass aead_salt iters (some random) ≡ some ks)
        × IsSetup sha512 digest master_key random ks
  unfolding lrz_aead_kdf_setup
  lrz_aead_kdf_setup-IsSetup long salted one few =
      let a : leb salt_len (length salt_pass) ≡ true = ground arith in
      let b : (leb 1 iters && leb iters iters_max) ≡ true = ground arith in
      let c : leb 1 (length (drop salt_len salt_pass)) ≡ true =
        ground (arith, length-drop salt_len salt_pass) in
      (
        _,
        rw
            (
              a,
              b,
              c,
              (pbkdf2_sha512-pbkdf2_blocks sha512 digest (drop salt_len salt_pass) aead_salt iters
                  hash_len one salted (omega arith) (omega arith)).0,
              hkdf_expand_sha512-hkdf_blocks sha512 digest master_key info_hdr aead_key_len
                  (omega arith) (omega arith),
              hkdf_expand_sha512-hkdf_blocks sha512 digest master_key info_data aead_key_len
                  (omega arith) (omega arith),
            )
            refl,
        record {
          hdr = refl;
          data_key = refl;
          hdr_len = length-hkdf_blocks sha512 digest master_key info_hdr aead_key_len (omega arith);
          data_len =
              length-hkdf_blocks sha512 digest master_key info_data aead_key_len (omega arith);
          prefix = refl;
          hdr_fresh = refl;
          data_fresh = refl;
        },
      )
