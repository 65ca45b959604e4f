-- ===== src/Header/Magic/RoundTrip.antt =====
-- What `write_magic` writes, `get_magic` accepts and reads back.
use lrzip.Common.{
  ℕ, ◌^◌, ◌≤◌, ◌<◌, ◌≡◌, ◌≢◌, refl, sym, ap, ◌∙◌, arith, ltb, ◌==◌, if◌then◌else◌, true, false,
  ◌&&◌, ◌||◌, not, some, Bool-cases, inl, inr,
}
use lrzip.Common.Slice.{slice}
use lrzip.Common.Bytes.{from_le, array}
use lrzip.Header.Kdf.{enc_loops}
use lrzip.Header.Magic.{
  Control, no_md5, byte_of, is_progressive, magic_bytes, array, with_streaming, get_versions,
  get_lzma, get_md5, get_encryption, get_magic,
}
use lrzip.Header.Magic.Stages.{
  IsMode, told_size, size_array, lzma_array, size_field-slice, header, magic_bytes-header, Decided,
  get_encryption-Decided, get_streaming-lem, Described, get_md5-get_lzma-Described, get_size-lem,
  get_magic-steps, told,
}

-- What `get_magic` has learnt from the header of `c`.
pub record Learnt (major minor : ℕ) (c r : Control) : Type 0 where
  pub major_version : r.major_version ≡ major
  pub minor_version : r.minor_version ≡ minor
  pub st_size : r.st_size ≡ told_size c
  pub encrypt : r.flags.encrypt ≡ c.flags.encrypt
  pub legacy : c.flags.encrypt ≡ true → r.flags.encrypt_legacy ≡ c.flags.encrypt_legacy
  pub aead : c.flags.encrypt ≡ true → r.flags.encrypt_aead ≡ c.flags.encrypt_aead
  pub salt : c.flags.encrypt ≡ true → slice r.salt 0 8 ≡ slice c.salt 0 8
  pub md5 : no_md5 c.flags ≡ false → r.flags.md5 ≡ true
  pub streaming : r.flags.streaming_blocks ≡ is_progressive c
  pub last : r.last_block ≡ byte_of (not (is_progressive c))
  pub lzma :
      c.flags.not_lzma ≡ false
      → c.lzma_properties 0 ≢ 0
      → slice r.lzma_properties 0 5 ≡ slice c.lzma_properties 0 5

module _ (major minor : ℕ) (c r : Control) (m : IsMode c) where
  magic_array : ℕ → ℕ
  magic_array = array (header major minor c (size_array c) (lzma_array c))

  sized : Control
  sized = record (get_versions magic_array r) {
    st_size = from_le (slice magic_array 6 8);
    eof =
        (get_versions magic_array r).eof
        || ((get_versions magic_array r).major_version == 0
            && ltb (get_versions magic_array r).minor_version 6);
  }

  salt_loops :
      c.flags.encrypt ≡ true
      → c.flags.encrypt_legacy ≡ true
      → enc_loops (magic_array 6) (magic_array 7) ≡ some m.loops
  unfolding magic_array size_array
  salt_loops on old = rw on (m.counted on old)

  salt_kept : c.flags.encrypt ≡ true → slice magic_array 6 8 ≡ slice c.salt 0 8
  unfolding magic_array size_array
  salt_kept on = rw on refl

  lzma_kept : c.flags.not_lzma ≡ false → slice magic_array 16 5 ≡ slice c.lzma_properties 0 5
  unfolding magic_array lzma_array
  lzma_kept off = rw off refl

  lzma_first : c.flags.not_lzma ≡ false → magic_array 16 ≡ c.lzma_properties 0
  unfolding magic_array lzma_array
  lzma_first off = rw off refl

  md5_set : no_md5 c.flags ≡ false → magic_array 21 ≡ 1
  unfolding magic_array
  md5_set off = rw off refl

  size_kept :
      c.st_size < 2 ^ 64
      → (if c.flags.encrypt then 0 else from_le (slice magic_array 6 8)) ≡ told_size c
  unfolding magic_array
  size_kept small = elim (Bool-cases (c.flags.encrypt)) [
    | inl on ↦ rw on refl
    | inr off ↦
        let t : from_le (slice magic_array 6 8) ≡ told_size c =
          ap from_le (sym (size_field-slice c)) ∙ told c small off in
        rw off (rw off at t)
  ]

  module _ (zero_major : major ≡ 0) (seven : 7 ≤ minor) (small : c.st_size < 2 ^ 64) where
    learnt :
        (k' k : Control)
        → Decided c.flags magic_array k' k
        → Described magic_array sized k'
        → Learnt major minor c (
            with_streaming
              (is_progressive c)
              (record k { last_block = byte_of (not (is_progressive c)) }))
    unfolding sized magic_array get_versions
    learnt k' k d g = record {
      major_version = d.major ∙ g.major;
      minor_version = d.minor ∙ g.minor;
      st_size = d.size ∙ rw g.size (size_kept small);
      encrypt = d.encrypt;
      legacy = d.legacy;
      aead = d.aead;
      salt = λ on. d.salt on ∙ salt_kept on;
      md5 = λ off. d.md5 ∙ g.md5 (md5_set off);
      streaming = refl;
      last = refl;
      lzma = λ off ne.
          ap (λ f. slice f 0 5) d.lzma
          ∙ g.lzma (λ z. ne (sym (lzma_first off) ∙ z))
          ∙ lzma_kept off;
    }

    -- For the format 0.7 or a later 0.x, a size below 2 ^ 64 and a valid mode of encryption,
    -- `get_magic` accepts the header that `write_magic` makes, and learns its version, size, mode
    -- of encryption and salt, hash, streaming flags and LZMA properties.
    pub get_magic-magic_bytes :
        (r' : Control) × (get_magic r (array (magic_bytes major minor c)) ≡ some r')
        × Learnt major minor c r'
    unfolding magic_array get_versions sized
    get_magic-magic_bytes = rw (magic_bytes-header major minor c) (
        finish
          (get_encryption-Decided c m magic_array (get_md5 magic_array (get_lzma magic_array sized))
            refl salt_loops)
          (get_md5-get_lzma-Described magic_array sized))
      where
        finish :
            (k : Control) × (get_encryption magic_array
                  (get_md5 magic_array (get_lzma magic_array sized))
                ≡ some k)
              × Decided c.flags magic_array (get_md5 magic_array (get_lzma magic_array sized)) k
            → Described magic_array sized (get_md5 magic_array (get_lzma magic_array sized))
            → (r' : Control) × (get_magic r magic_array ≡ some r') × Learnt major minor c r'
        finish (k, e, d) g = (
          _,
          get_magic-steps r magic_array refl (get_size-lem magic_array _ zero_major seven) e (
              get_streaming-lem (is_progressive c) magic_array k refl refl
                (d.major ∙ g.major ∙ zero_major) (omega (arith, d.minor, g.minor, seven))),
          learnt _ k d g,
        )
