-- ===== src/Header/Magic.antt =====
-- lrzip.c, the archive's magic header: `write_magic`, `get_magic`, `read_crypto_desc` and `read_magic`.
-- An array of the source is a function from its indices to its bytes.
pub mod Stages
pub mod RoundTrip
pub mod File
use lrzip.Common.{
  ℕ, zero, suc, ◌+◌, ◌-◌, ◌*◌, ◌^◌, List, [], ◌∷◌, ◌++◌, length, take, drop, replicate, ltb, leb,
  ◌==◌, if◌then◌else◌, Bool, true, false, ◌&&◌, ◌||◌, not, Option, none, some, ◌>>=◌, ◌>>◌, require,
}
use lrzip.Common.Slice.{slice}
use lrzip.Common.Bytes.{le_bytes, from_le, array}
use lrzip.Header.Kdf.{enc_loops}

-- The bits of `control->flags` that the header depends on. `not_lzma` is `flags & FLAG_NOT_LZMA`.
pub record Flags : Type 0 where
  pub stdin : Bool
  pub stdout : Bool
  pub md5 : Bool
  pub hash : Bool
  pub not_lzma : Bool
  pub encrypt : Bool
  pub encrypt_legacy : Bool
  pub encrypt_aead : Bool
  pub streaming_blocks : Bool

-- The part of `struct rzip_control` that the header is made from and read into. `st_size` is kept as
-- its 64 bits.
pub record Control : Type 0 where
  pub flags : Flags
  pub major_version : ℕ
  pub minor_version : ℕ
  pub st_size : ℕ
  pub eof : Bool
  pub salt : ℕ → ℕ
  pub lzma_properties : ℕ → ℕ
  pub encloops : ℕ
  pub aead_iters : ℕ
  pub aead_salt : ℕ → ℕ
  pub last_block : ℕ
  pub blocks_done : ℕ
  pub magic_written : Bool

abbrev pub no_md5 : Flags → Bool
no_md5 f = not f.hash && not f.md5

abbrev pub byte_of : Bool → ℕ
byte_of b = if b then 1 else 0

-- `STDOUT && !control->eof`
abbrev pub is_progressive : Control → Bool
is_progressive c = c.flags.stdout && not c.eof

-- `magic[6..14)`
unfoldable pub size_field : Control → List ℕ
size_field c =
    if c.flags.encrypt
    then slice c.salt 0 8
    else if not c.flags.stdin || not c.flags.stdout || c.eof
    then le_bytes 8 c.st_size
    else replicate 8 0

-- `magic[16..21)`
unfoldable pub lzma_field : Control → List ℕ
lzma_field c = if not c.flags.not_lzma then slice c.lzma_properties 0 5 else replicate 5 0

-- `magic[22]`
unfoldable pub encryption_byte : Flags → ℕ
encryption_byte f = if f.encrypt then (if f.encrypt_legacy then 1 else 3) else 0

-- The array `magic`, of `MAGIC_LEN` bytes; `major` and `minor` are the program's version.
unfoldable pub magic_bytes : ℕ → ℕ → Control → List ℕ
magic_bytes major minor c =
    (0x4c ∷ 0x52 ∷ 0x5a ∷ 0x49 ∷ major ∷ minor ∷ [])
    ++ (size_field c
        ++ ((byte_of (is_progressive c) ∷ 0 ∷ [])
            ++ (lzma_field c
                ++ (byte_of (not (no_md5 c.flags))
                    ∷ encryption_byte c.flags
                    ∷ byte_of (not (is_progressive c))
                    ∷ []))))

abbrev pub suite_aes256_gcm_pbkdf2 : ℕ
suite_aes256_gcm_pbkdf2 = 1

abbrev pub aead_salt_len : ℕ
aead_salt_len = 16

abbrev pub pbkdf2_iters_max : ℕ
pbkdf2_iters_max = 5000000

-- The array `desc`, of `LRZ_CRYPTO_DESC_LEN` bytes.
unfoldable pub crypto_desc : Control → List ℕ
crypto_desc c =
    (suite_aes256_gcm_pbkdf2 ∷ aead_salt_len ∷ [])
    ++ (le_bytes 4 c.aead_iters
        ++ ((0 ∷ 0 ∷ []) ++ (slice c.aead_salt 0 aead_salt_len ++ replicate 8 0)))

-- `control->flags |= FLAG_STREAMING_BLOCKS`
unfoldable pub flag_streaming : Control → Control
flag_streaming c =
    if is_progressive c
    then record c { flags = record (c.flags) { streaming_blocks = true } }
    else c

-- What is handed to `put_fdout` at the start of the file, and the changed state. A write that fails
-- is left out.
unfoldable pub write_magic : ℕ → ℕ → Control → List ℕ × Control
write_magic major minor c =
    let f = flag_streaming c in
    if ltb 0 c.blocks_done then ([], f) else (
      magic_bytes major minor c ++ (if c.flags.encrypt_aead then crypto_desc c else []),
      record f { magic_written = true },
    )

-- `ntohl` of the four bytes at `i`.
unfoldable pub from_be32 : (ℕ → ℕ) → ℕ → ℕ
from_be32 magic i = ((magic i * 256 + magic (i + 1)) * 256 + magic (i + 2)) * 256 + magic (i + 3)

-- "Support the convoluted way we described size in versions < 0.40."
unfoldable pub expected_size : ℕ → ℕ → (ℕ → ℕ) → Option ℕ
expected_size major minor magic =
    if major == 0 && ltb minor 4
    then (if ltb 0x7fffffff (from_be32 magic 10)
        then none
        else some (from_be32 magic 6 + from_be32 magic 10 * 2 ^ 32))
    else some (from_le (slice magic 6 8))

unfoldable pub get_versions : (ℕ → ℕ) → Control → Control
get_versions magic c = record c { major_version = magic 4; minor_version = magic 5 }

unfoldable pub get_size : (ℕ → ℕ) → Control → Option Control
get_size magic c = expected_size c.major_version c.minor_version magic >>= λ size.
    some
      (record c { st_size = size; eof = c.eof || (c.major_version == 0 && ltb c.minor_version 6) })

-- "Cludge to allow us to read possibly corrupted archives."
unfoldable pub properties_from : (ℕ → ℕ) → ℕ → ℕ
properties_from magic i = if i == 0 && magic 16 == 0 then 93 else magic (i + 16)

unfoldable pub get_lzma : (ℕ → ℕ) → Control → Control
get_lzma magic c = if magic 16 == 0 then c else record c { lzma_properties = properties_from magic }

unfoldable pub get_md5 : (ℕ → ℕ) → Control → Control
get_md5 magic c = if magic 21 == 1 then record c { flags = record (c.flags) { md5 = true } } else c

abbrev pub with_encryption : Bool → Bool → Bool → Flags → Flags
with_encryption e legacy aead f = record f {
  encrypt = e;
  encrypt_legacy = legacy;
  encrypt_aead = aead;
}

-- The mode byte is set: legacy or AEAD, and the size field is a salt.
unfoldable pub get_encrypted : (ℕ → ℕ) → Control → Option Control
get_encrypted magic c =
    let salted = record c { salt = λ i. magic (i + 6); st_size = 0 } in
    if magic 22 == 1
    then (enc_loops (magic 6) (magic 7) >>= λ n.
        if ltb n 1
        then none
        else some (record salted { flags = with_encryption true true false c.flags; encloops = n }))
    else if magic 22 == 3
    then some (record salted { flags = with_encryption true false true c.flags })
    else none

unfoldable pub get_encryption : (ℕ → ℕ) → Control → Option Control
get_encryption magic c =
    if not (magic 22 == 0)
    then get_encrypted magic c
    else if c.flags.encrypt
    then some (record c { flags = with_encryption false false false c.flags })
    else some c

abbrev pub with_streaming : Bool → Control → Control
with_streaming b c = record c { flags = record (c.flags) { streaming_blocks = b } }

-- "v0.7 streaming / last-block flags (bytes 14 and 23)."
unfoldable pub get_streaming : (ℕ → ℕ) → Control → Option Control
get_streaming magic c =
    if c.major_version == 0 && leb 7 c.minor_version
    then (if ltb 1 (magic 14) || ltb 1 (magic 23)
        then none
        else if magic 14 == 0 && magic 23 == 0
        then none
        else some (with_streaming (not (magic 14 == 0)) (record c { last_block = magic 23 })))
    else some (with_streaming false (record c { last_block = 1 }))

-- `none` is a return of false.
unfoldable pub get_magic : Control → (ℕ → ℕ) → Option Control
get_magic c magic = do
  require (magic 0 == 0x4c && (magic 1 == 0x52 && (magic 2 == 0x5a && magic 3 == 0x49)))
  sized ← get_size magic (get_versions magic c)
  known ← get_encryption magic (get_md5 magic (get_lzma magic sized))
  get_streaming magic known

-- On the array `desc`.
unfoldable pub read_crypto_desc : Control → (ℕ → ℕ) → Option Control
read_crypto_desc c desc = do
  require (desc 0 == suite_aes256_gcm_pbkdf2)
  require (desc 1 == aead_salt_len)
  let iters = from_le (slice desc 2 4)
  require (leb 1 iters && leb iters pbkdf2_iters_max)
  some (record c { aead_iters = iters; aead_salt = λ i. desc (i + 8); salt = λ i. desc (i + 8) })

abbrev pub magic_len : ℕ
magic_len = 24

abbrev pub crypto_desc_len : ℕ
crypto_desc_len = 32

-- "Suite-3 CryptoDesc", where the magic header asks for one.
unfoldable pub read_descriptor : Control → List ℕ → Option (Control × ℕ × List ℕ)
read_descriptor c rest = do
  require (leb crypto_desc_len (length rest))
  full ← read_crypto_desc c (array (take crypto_desc_len rest))
  some (full, full.st_size, drop crypto_desc_len rest)

-- The control, `*expected_size`, and what follows the header in the file.
unfoldable pub read_magic : Control → List ℕ → Option (Control × ℕ × List ℕ)
read_magic c file = do
  require (leb magic_len (length file))
  known ← get_magic c (array (take magic_len file))
  (if known.flags.encrypt_aead
      then read_descriptor known (drop magic_len file)
      else some (known, known.st_size, drop magic_len file))
