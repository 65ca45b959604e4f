-- ===== src/Header/Magic/Stages.antt =====
-- The stages of `get_magic` on a header that `write_magic` has made.
use lrzip.Common.{
  ℕ, ◌+◌, ◌^◌, ◌≤◌, ◌<◌, ◌≡◌, ◌≢◌, refl, sym, ap, ◌∙◌, arith, List, [], ◌∷◌, ◌++◌, replicate, ltb,
  leb, ◌==◌, if◌then◌else◌, Bool, true, false, ◌&&◌, ◌||◌, not, some, Bool-cases, inl, inr,
}
use lrzip.Common.Slice.{slice}
use lrzip.Common.Bytes.{le_bytes, from_le, array, from_le-le_bytes}
use lrzip.Header.Kdf.{enc_loops}
use lrzip.Header.Magic.{
  Flags, Control, no_md5, byte_of, is_progressive, size_field, lzma_field, encryption_byte,
  magic_bytes, array, with_encryption, with_streaming, properties_from, expected_size, get_versions,
  get_size, get_lzma, get_md5, get_encrypted, get_encryption, get_streaming, get_magic,
}

-- What the writer must have set up: a mode of encryption that is one of the two, and for the legacy
-- mode an iteration count that `enc_loops` takes.
pub record IsMode (c : Control) : Type 0 where
  pub one_mode : c.flags.encrypt ≡ true → c.flags.encrypt_aead ≡ not c.flags.encrypt_legacy
  pub loops : ℕ
  pub counted :
      c.flags.encrypt ≡ true
      → c.flags.encrypt_legacy ≡ true
      → enc_loops (c.salt 0) (c.salt 1) ≡ some loops
  pub some_loops : 1 ≤ loops

-- The size that the header gives away.
abbrev pub told_size : Control → ℕ
told_size c =
    if c.flags.encrypt
    then 0
    else if not c.flags.stdin || not c.flags.stdout || c.eof
    then c.st_size
    else 0

-- The eight bytes of the size field, as an array.
unfoldable pub size_array : Control → ℕ → ℕ
size_array c = if c.flags.encrypt then c.salt else array (size_field c)

unfoldable pub lzma_array : Control → ℕ → ℕ
lzma_array c = if not c.flags.not_lzma then c.lzma_properties else (λ i. 0)

pub size_field-slice : (c : Control) → size_field c ≡ slice (size_array c) 0 8
unfolding size_field size_array le_bytes
size_field-slice c = elim (Bool-cases (c.flags.encrypt)) [
  | inl e ↦ rw e refl
  | inr e ↦ rw e (elim (Bool-cases (not c.flags.stdin || not c.flags.stdout || c.eof)) [
    | inl k ↦ rw k refl
    | inr k ↦ rw k refl
  ])
]

pub lzma_field-slice : (c : Control) → lzma_field c ≡ slice (lzma_array c) 0 5
unfolding lzma_field lzma_array
lzma_field-slice c = elim (Bool-cases (c.flags.not_lzma)) [ inl e ↦ rw e refl | inr e ↦ rw e refl ]

-- The header over arrays for its two fields of variable content.
abbrev pub header : ℕ → ℕ → Control → (ℕ → ℕ) → (ℕ → ℕ) → List ℕ
header major minor c s l =
    (0x4c ∷ 0x52 ∷ 0x5a ∷ 0x49 ∷ major ∷ minor ∷ [])
    ++ (slice s 0 8
        ++ ((byte_of (is_progressive c) ∷ 0 ∷ [])
            ++ (slice l 0 5
                ++ (byte_of (not (no_md5 c.flags))
                    ∷ encryption_byte c.flags
                    ∷ byte_of (not (is_progressive c))
                    ∷ []))))

pub magic_bytes-header :
    (major minor : ℕ) (c : Control)
    → magic_bytes major minor c ≡ header major minor c (size_array c) (lzma_array c)
unfolding magic_bytes
magic_bytes-header major minor c = rw (size_field-slice c, lzma_field-slice c) refl

-- What `get_encryption` changes and keeps.
pub record Decided (f : Flags) (magic : ℕ → ℕ) (k k' : Control) : Type 0 where
  pub major : k'.major_version ≡ k.major_version
  pub minor : k'.minor_version ≡ k.minor_version
  pub lzma : k'.lzma_properties ≡ k.lzma_properties
  pub md5 : k'.flags.md5 ≡ k.flags.md5
  pub size : k'.st_size ≡ (if f.encrypt then 0 else k.st_size)
  pub encrypt : k'.flags.encrypt ≡ f.encrypt
  pub legacy : f.encrypt ≡ true → k'.flags.encrypt_legacy ≡ f.encrypt_legacy
  pub aead : f.encrypt ≡ true → k'.flags.encrypt_aead ≡ f.encrypt_aead
  pub salt : f.encrypt ≡ true → slice k'.salt 0 8 ≡ slice magic 6 8

pub get_encryption-Decided :
    (c : Control) (m : IsMode c) (magic : ℕ → ℕ) (k : Control)
    → magic 22 ≡ encryption_byte c.flags
    → (c.flags.encrypt ≡ true
        → c.flags.encrypt_legacy ≡ true
        → enc_loops (magic 6) (magic 7) ≡ some m.loops)
    → (k' : Control) × (get_encryption magic k ≡ some k') × Decided c.flags magic k k'
unfolding get_encryption get_encrypted encryption_byte
get_encryption-Decided c m magic k e loops = elim (Bool-cases (c.flags.encrypt)) [
  | inl on ↦ elim (Bool-cases (c.flags.encrypt_legacy)) [
    | inl old ↦
        let byte : magic 22 ≡ 1 = rw (on, old) at e in
        let few : ltb m.loops 1 ≡ false = ground (arith, m.some_loops) in
        (
          record k {
            salt = λ i. magic (i + 6);
            st_size = 0;
            flags = with_encryption true true false k.flags;
            encloops = m.loops;
          },
          rw (byte, loops on old, few) refl,
          record {
            major = refl;
            minor = refl;
            lzma = refl;
            md5 = refl;
            size = rw on refl;
            encrypt = sym on;
            legacy = λ _. sym old;
            aead = λ _. sym (m.one_mode on ∙ ap not old);
            salt = λ _. refl;
          },
        )
    | inr new ↦
        let byte : magic 22 ≡ 3 = rw (on, new) at e in
        (
          record k {
            salt = λ i. magic (i + 6);
            st_size = 0;
            flags = with_encryption true false true k.flags;
          },
          rw byte refl,
          record {
            major = refl;
            minor = refl;
            lzma = refl;
            md5 = refl;
            size = rw on refl;
            encrypt = sym on;
            legacy = λ _. sym new;
            aead = λ _. sym (m.one_mode on ∙ ap not new);
            salt = λ _. refl;
          },
        )
  ]
  | inr off ↦
      let byte : magic 22 ≡ 0 = rw off at e in
      elim (Bool-cases (k.flags.encrypt)) [
        | inl asked ↦ (
          record k { flags = with_encryption false false false k.flags },
          rw (byte, asked) refl,
          record {
            major = refl;
            minor = refl;
            lzma = refl;
            md5 = refl;
            size = rw off refl;
            encrypt = sym off;
            legacy = λ on. absurd (false≢true (sym off ∙ on));
            aead = λ on. absurd (false≢true (sym off ∙ on));
            salt = λ on. absurd (false≢true (sym off ∙ on));
          },
        )
        | inr plain ↦ (
          k,
          rw (byte, plain) refl,
          record {
            major = refl;
            minor = refl;
            lzma = refl;
            md5 = refl;
            size = rw off refl;
            encrypt = plain ∙ sym off;
            legacy = λ on. absurd (false≢true (sym off ∙ on));
            aead = λ on. absurd (false≢true (sym off ∙ on));
            salt = λ on. absurd (false≢true (sym off ∙ on));
          },
        )
      ]
]
  where
    false≢true : false ≡ true → ⊥
    false≢true h = ground arith

pub get_streaming-lem :
    (b : Bool) (magic : ℕ → ℕ) (k : Control)
    → magic 14 ≡ byte_of b
    → magic 23 ≡ byte_of (not b)
    → k.major_version ≡ 0
    → 7 ≤ k.minor_version
    → get_streaming magic k ≡ some (with_streaming b (record k { last_block = byte_of (not b) }))
unfolding get_streaming
get_streaming-lem true magic k e f zero_major seven =
    let new : leb 7 k.minor_version ≡ true = ground arith in rw (zero_major, new, e, f) refl
get_streaming-lem false magic k e f zero_major seven =
    let new : leb 7 k.minor_version ≡ true = ground arith in rw (zero_major, new, e, f) refl

-- What `get_lzma` and `get_md5` keep, and what they set.
pub record Described (magic : ℕ → ℕ) (k k' : Control) : Type 0 where
  pub major : k'.major_version ≡ k.major_version
  pub minor : k'.minor_version ≡ k.minor_version
  pub size : k'.st_size ≡ k.st_size
  pub md5 : magic 21 ≡ 1 → k'.flags.md5 ≡ true
  pub lzma : magic 16 ≢ 0 → slice k'.lzma_properties 0 5 ≡ slice magic 16 5

pub get_md5-get_lzma-Described :
    (magic : ℕ → ℕ) (k : Control) → Described magic k (get_md5 magic (get_lzma magic k))
unfolding get_md5 get_lzma properties_from
get_md5-get_lzma-Described magic k = elim (Bool-cases (magic 16 == 0)) [
  | inl e ↦ rw e (elim (Bool-cases (magic 21 == 1)) [
    | inl g ↦ rw g (record {
      major = refl;
      minor = refl;
      size = refl;
      md5 = λ _. refl;
      lzma = λ ne. absurd (ne (ground arith));
    })
    | inr g ↦ rw g (record {
      major = refl;
      minor = refl;
      size = refl;
      md5 = λ h. absurd (ground arith);
      lzma = λ ne. absurd (ne (ground arith));
    })
  ])
  | inr e ↦ rw e (elim (Bool-cases (magic 21 == 1)) [
    | inl g ↦ rw g (record {
      major = refl;
      minor = refl;
      size = refl;
      md5 = λ _. refl;
      lzma = λ ne. first_property e;
    })
    | inr g ↦ rw g (record {
      major = refl;
      minor = refl;
      size = refl;
      md5 = λ h. absurd (ground arith);
      lzma = λ ne. first_property e;
    })
  ])
]
  where
    first_property : (magic 16 == 0) ≡ false → slice (properties_from magic) 0 5 ≡ slice magic 16 5
    first_property e = rw e refl

pub get_size-lem :
    (magic : ℕ → ℕ) (k : Control)
    → k.major_version ≡ 0
    → 7 ≤ k.minor_version
    → get_size magic k
      ≡ some (record k {
        st_size = from_le (slice magic 6 8);
        eof = k.eof || (k.major_version == 0 && ltb k.minor_version 6);
      })
unfolding get_size expected_size
get_size-lem magic k zero_major seven =
    let recent : ltb k.minor_version 4 ≡ false = ground arith in rw (zero_major, recent) refl

-- The guards of `get_magic`, one after the other.
pub get_magic-steps :
    (r : Control) (magic : ℕ → ℕ) {sized k out : Control}
    → (magic 0 == 0x4c && (magic 1 == 0x52 && (magic 2 == 0x5a && magic 3 == 0x49))) ≡ true
    → get_size magic (get_versions magic r) ≡ some sized
    → get_encryption magic (get_md5 magic (get_lzma magic sized)) ≡ some k
    → get_streaming magic k ≡ some out
    → get_magic r magic ≡ some out
unfolding get_magic
get_magic-steps r magic sig size enc stream = rw (sig, size, enc, stream) refl

pub told :
    (c : Control)
    → c.st_size < 2 ^ 64
    → c.flags.encrypt ≡ false
    → from_le (size_field c) ≡ told_size c
unfolding size_field
told c small off = rw off (elim (Bool-cases (not c.flags.stdin || not c.flags.stdout || c.eof)) [
  | inl k ↦ rw k (from_le-le_bytes 8 c.st_size small)
  | inr k ↦ rw k zero_bytes
])
  where
    zero_bytes : from_le (replicate 8 0) ≡ 0
    zero_bytes = unfold from_le in refl
