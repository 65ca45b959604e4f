-- ===== src/Header/Magic/File.antt =====
-- The header in its file: what `write_magic` puts at the start, `read_magic` takes off.
use lrzip.Common.{
  ℕ, ◌+◌, ◌^◌, ◌≤◌, ◌<◌, ◌≡◌, refl, ap, ◌∙◌, arith, List, ◌++◌, length, leb, true, ◌&&◌, some,
  length-append, take-append, drop-append, append_assoc,
}
use lrzip.Common.Slice.{slice}
use lrzip.Common.Bytes.{le_bytes, from_le, array, from_le-le_bytes}
use lrzip.Header.Magic.{
  Control, magic_bytes, magic_len, crypto_desc, crypto_desc_len, pbkdf2_iters_max, write_magic,
  read_crypto_desc, read_descriptor, get_magic, read_magic,
}
use lrzip.Header.Magic.Stages.{IsMode, magic_bytes-header}
use lrzip.Header.Magic.RoundTrip.{Learnt, get_magic-magic_bytes}

length-magic_bytes :
    (major minor : ℕ) (c : Control) → length (magic_bytes major minor c) ≡ magic_len
length-magic_bytes major minor c = ap length (magic_bytes-header major minor c)

length-crypto_desc : (c : Control) → length (crypto_desc c) ≡ crypto_desc_len
unfolding crypto_desc le_bytes
length-crypto_desc c = refl

-- The reader's control after the descriptor: the writer's salt and iteration count, and all else as
-- it was.
pub record Recovered (c known full : Control) : Type 0 where
  pub iters : full.aead_iters ≡ c.aead_iters
  pub aead_salt : slice full.aead_salt 0 16 ≡ slice c.aead_salt 0 16
  pub salt : slice full.salt 0 8 ≡ slice c.aead_salt 0 8
  pub kept :
      full
      ≡ record known { aead_iters = c.aead_iters; aead_salt = full.aead_salt; salt = full.salt }

-- The descriptor that `write_magic` makes, `read_crypto_desc` accepts and reads back.
pub read_crypto_desc-crypto_desc :
    (c known : Control)
    → 1 ≤ c.aead_iters
    → c.aead_iters ≤ pbkdf2_iters_max
    → (full : Control) × (read_crypto_desc known (array (crypto_desc c)) ≡ some full)
      × Recovered c known full
unfolding read_crypto_desc crypto_desc le_bytes
read_crypto_desc-crypto_desc c known one few = (
  record known {
    aead_iters = from_le (le_bytes 4 c.aead_iters);
    aead_salt = λ i. array (crypto_desc c) (i + 8);
    salt = λ i. array (crypto_desc c) (i + 8);
  },
  rw in_range refl,
  record {
    iters = iters;
    aead_salt = refl;
    salt = refl;
    kept =
        ap
          (λ n. record known {
            aead_iters = n;
            aead_salt = λ i. array (crypto_desc c) (i + 8);
            salt = λ i. array (crypto_desc c) (i + 8);
          })
          iters;
  },
)
  where
    iters : from_le (le_bytes 4 c.aead_iters) ≡ c.aead_iters
    iters = from_le-le_bytes 4 c.aead_iters (omega arith)

    in_range :
        (leb 1 (from_le (le_bytes 4 c.aead_iters))
          && leb (from_le (le_bytes 4 c.aead_iters)) pbkdf2_iters_max)
        ≡ true
    in_range = rw iters (ground arith)

module _ (major minor : ℕ) (c r : Control) (m : IsMode c) (zero_major : major ≡ 0)
    (seven : 7 ≤ minor) (small : c.st_size < 2 ^ 64) (first : c.blocks_done ≡ 0)
    (on : c.flags.encrypt ≡ true) (aead : c.flags.encrypt_aead ≡ true) (one : 1 ≤ c.aead_iters)
    (few : c.aead_iters ≤ pbkdf2_iters_max) where
  written : (write_magic major minor c).0 ≡ magic_bytes major minor c ++ crypto_desc c
  unfolding write_magic
  written = rw (first, aead) refl

  read_descriptor-crypto_desc :
      (known : Control) (rest : List ℕ)
      → (full : Control) × (read_descriptor known (crypto_desc c ++ rest)
          ≡ some (full, full.st_size, rest))
        × Recovered c known full
  unfolding read_descriptor
  read_descriptor-crypto_desc known rest =
      let (full, e, d) = read_crypto_desc-crypto_desc c known one few in
      let long : leb crypto_desc_len (length (crypto_desc c ++ rest)) ≡ true =
        ground (arith, length-append (crypto_desc c) rest, length-crypto_desc c) in
      (
        full,
        rw
            (
              long,
              take-append crypto_desc_len (crypto_desc c) rest (length-crypto_desc c),
              e,
              drop-append crypto_desc_len (crypto_desc c) rest (length-crypto_desc c),
            )
            refl,
        d,
      )

  -- For an AEAD archive of the format 0.7 or a later 0.x, a size below 2 ^ 64, an iteration count
  -- in range, and no block done yet, `read_magic` takes off what `write_magic` has put in front of
  -- `rest` and leaves `rest`; the control that it returns is the one that `get_magic` returns,
  -- which has learnt what the magic header tells, with only the iteration count and the two salts
  -- changed, to those of the descriptor.
  pub read_magic-write_magic :
      (rest : List ℕ)
      → (known full : Control) × (get_magic r (array (magic_bytes major minor c)) ≡ some known)
        × (read_magic r ((write_magic major minor c).0 ++ rest) ≡ some (full, full.st_size, rest))
        × Learnt major minor c known
        × Recovered c known full
  unfolding read_magic
  read_magic-write_magic rest =
      let (known, e, l) = get_magic-magic_bytes major minor c r m zero_major seven small in
      let (full, e', d) = read_descriptor-crypto_desc known rest in
      let long : leb magic_len (length (magic_bytes major minor c ++ (crypto_desc c ++ rest)))
          ≡ true =
        ground (
          arith,
          length-append (magic_bytes major minor c) (crypto_desc c ++ rest),
          length-magic_bytes major minor c,
        ) in
      (
        known,
        full,
        e,
        rw
            (
              written,
              append_assoc (magic_bytes major minor c) (crypto_desc c) rest,
              long,
              take-append magic_len (magic_bytes major minor c) (crypto_desc c ++ rest)
                  (length-magic_bytes major minor c),
              e,
              l.aead on ∙ aead,
              drop-append magic_len (magic_bytes major minor c) (crypto_desc c ++ rest)
                  (length-magic_bytes major minor c),
            )
            e',
        l,
        d,
      )
