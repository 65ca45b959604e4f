-- ===== src/Header/Lrzc.antt =====
-- stream.c, the header of a streamed block: `write_lrzc_header`, `patch_lrzc_c_size` and
-- `read_lrzc_header`. Sizes are kept as their 64 bits.
use lrzip.Common.{
  ℕ, ◌+◌, ◌-◌, ◌^◌, ◌≤◌, ◌<◌, ◌≡◌, refl, ap, ◌∙◌, arith, List, [], ◌∷◌, ◌++◌, length, take, drop,
  replicate, ltb, leb, ◌==◌, if◌then◌else◌, Bool, true, false, ◌&&◌, not, Option, none, some, ◌>>=◌,
  ◌>>◌, require, length-append, take-append, drop-append, take-append_ge, drop-append_ge,
  append_assoc,
}
use lrzip.Common.Slice.{slice}
use lrzip.Common.Bytes.{le_bytes, from_le, array, from_le-le_bytes}

abbrev pub lrzc_len : ℕ
lrzc_len = 24

-- The array `hdr` of `write_lrzc_header`.
unfoldable pub lrzc_header : Bool → ℕ → Bool → List ℕ
lrzc_header encrypt u_size last =
    (0x4c ∷ 0x52 ∷ 0x5a ∷ 0x43 ∷ [])
    ++ ((if encrypt then replicate 8 0 else le_bytes 8 u_size)
        ++ (replicate 8 0 ++ ((if last then 1 else 0) ∷ 0 ∷ 0 ∷ 0 ∷ [])))

-- The output with the header appended, and `control->lrzc_pos`.
unfoldable pub write_lrzc_header : Bool → List ℕ → ℕ → Bool → List ℕ × ℕ
write_lrzc_header encrypt out u_size last = (out ++ lrzc_header encrypt u_size last, length out)

-- The bytes at `ofs` are overwritten with `bs`.
abbrev pub overwrite : List ℕ → ℕ → List ℕ → List ℕ
overwrite out ofs bs = take ofs out ++ (bs ++ drop (ofs + length bs) out)

-- `none` is "Invalid LRZC compressed size".
unfoldable pub patch_lrzc_c_size : List ℕ → ℕ → Option (List ℕ)
patch_lrzc_c_size out lrzc_pos =
    if ltb (length out) (lrzc_pos + lrzc_len)
    then none
    else some (overwrite out (lrzc_pos + 12) (le_bytes 8 (length out - lrzc_pos - lrzc_len)))

-- What `read_lrzc_header` sets: `*c_size_out`, `*u_size_out` and `control->last_block`.
pub record Block : Type 0 where
  pub c_size : ℕ
  pub u_size : ℕ
  pub last_block : ℕ

-- The checks on the array `hdr`. A compressed size of 2 ^ 63 or above is negative in the source.
unfoldable pub parse_lrzc : Bool → (ℕ → ℕ) → Option Block
parse_lrzc encrypt hdr = do
  require (hdr 0 == 0x4c && (hdr 1 == 0x52 && (hdr 2 == 0x5a && hdr 3 == 0x43)))
  require (leb (hdr 20) 1)
  require (hdr 21 == 0 && (hdr 22 == 0 && hdr 23 == 0))
  let c_size = from_le (slice hdr 12 8)
  require (ltb 0 c_size && ltb c_size (2 ^ 63))
  let u_size = from_le (slice hdr 4 8)
  require (not (encrypt && not (u_size == 0)))
  some (record { c_size = c_size; u_size = u_size; last_block = hdr 20 })

-- The header, and what follows it in the file.
unfoldable pub read_lrzc_header : Bool → List ℕ → Option (Block × List ℕ)
read_lrzc_header encrypt file = do
  require (leb lrzc_len (length file))
  b ← parse_lrzc encrypt (array (take lrzc_len file))
  some (b, drop lrzc_len file)

-- What the reader gets from a header of a payload of `n` bytes.
abbrev pub block_of : Bool → ℕ → Bool → ℕ → Block
block_of encrypt u_size last n = record {
  c_size = n;
  u_size = if encrypt then 0 else u_size;
  last_block = if last then 1 else 0;
}

-- The header with its compressed size in place.
patched_header : Bool → ℕ → Bool → ℕ → List ℕ
patched_header encrypt u_size last n =
    (0x4c ∷ 0x52 ∷ 0x5a ∷ 0x43 ∷ [])
    ++ ((if encrypt then replicate 8 0 else le_bytes 8 u_size)
        ++ (le_bytes 8 n ++ ((if last then 1 else 0) ∷ 0 ∷ 0 ∷ 0 ∷ [])))

length-patched_header :
    (encrypt : Bool) (u_size : ℕ) (last : Bool) (n : ℕ)
    → length (patched_header encrypt u_size last n) ≡ lrzc_len
unfolding patched_header le_bytes
length-patched_header true u_size last n = refl
length-patched_header false u_size last n = refl

length-lrzc_header :
    (encrypt : Bool) (u_size : ℕ) (last : Bool)
    → length (lrzc_header encrypt u_size last) ≡ lrzc_len
unfolding lrzc_header le_bytes
length-lrzc_header true u_size last = refl
length-lrzc_header false u_size last = refl

overwrite-lrzc_header :
    (encrypt : Bool) (u_size : ℕ) (last : Bool) (n : ℕ) (payload : List ℕ)
    → overwrite (lrzc_header encrypt u_size last ++ payload) 12 (le_bytes 8 n)
      ≡ patched_header encrypt u_size last n ++ payload
unfolding lrzc_header patched_header le_bytes
overwrite-lrzc_header true u_size last n payload = refl
overwrite-lrzc_header false u_size last n payload = refl

overwrite-append :
    (xs ys bs : List ℕ) (k : ℕ) → overwrite (xs ++ ys) (length xs + k) bs ≡ xs ++ overwrite ys k bs
overwrite-append xs ys bs k =
    let e : length xs + k - length xs ≡ k = omega arith in
    let f : length xs + k + length bs - length xs ≡ k + length bs = omega arith in
    rw
      (
        take-append_ge (length xs + k) xs ys (omega arith),
        e,
        drop-append_ge (length xs + k + length bs) xs ys (omega arith),
        f,
      )
      (append_assoc xs (take k ys) (bs ++ drop (k + length bs) ys))

-- The checks of `parse_lrzc`, one after the other.
parse_lrzc-steps :
    (encrypt : Bool) (hdr : ℕ → ℕ) {n u : ℕ}
    → (hdr 0 == 0x4c && (hdr 1 == 0x52 && (hdr 2 == 0x5a && hdr 3 == 0x43))) ≡ true
    → leb (hdr 20) 1 ≡ true
    → (hdr 21 == 0 && (hdr 22 == 0 && hdr 23 == 0)) ≡ true
    → from_le (slice hdr 12 8) ≡ n
    → from_le (slice hdr 4 8) ≡ u
    → 1 ≤ n
    → n < 2 ^ 63
    → (encrypt && not (u == 0)) ≡ false
    → parse_lrzc encrypt hdr ≡ some (record { c_size = n; u_size = u; last_block = hdr 20 })
unfolding parse_lrzc
parse_lrzc-steps encrypt hdr {n} {u} sig flags reserved c_size u_size one small plain =
    let positive : (ltb 0 n && ltb n (2 ^ 63)) ≡ true = ground arith in
    rw (sig, flags, reserved, c_size, positive, u_size, plain) refl

flag_small : (last : Bool) → leb (if last then 1 else 0) 1 ≡ true
flag_small last = ground arith

zero_bytes : from_le (replicate 8 0) ≡ 0
zero_bytes = unfold from_le in refl

parse_lrzc-patched_header :
    (encrypt : Bool) (u_size : ℕ) (last : Bool) (n : ℕ)
    → u_size < 2 ^ 64
    → 1 ≤ n
    → n < 2 ^ 63
    → parse_lrzc encrypt (array (patched_header encrypt u_size last n))
      ≡ some (block_of encrypt u_size last n)
unfolding patched_header le_bytes
parse_lrzc-patched_header true u_size last n u one small =
    parse_lrzc-steps true _ refl (flag_small last) refl (from_le-le_bytes 8 n (omega arith))
      zero_bytes one small refl
parse_lrzc-patched_header false u_size last n u one small =
    parse_lrzc-steps false _ refl (flag_small last) refl (from_le-le_bytes 8 n (omega arith))
      (from_le-le_bytes 8 u_size u) one small refl

-- A header that is written behind `out`, followed by its payload of 1 to 2 ^ 63 - 1 bytes, is
-- patched where it stands, and `read_lrzc_header` then reads from it the payload's length, the
-- uncompressed size (below 2 ^ 64, and 0 if encrypted) and the last flag, and leaves the payload.
pub read_lrzc_header-patch_lrzc_c_size :
    (encrypt : Bool) (out payload : List ℕ) (u_size : ℕ) (last : Bool)
    → u_size < 2 ^ 64
    → 1 ≤ length payload
    → length payload < 2 ^ 63
    → (file : List ℕ) × (patch_lrzc_c_size
          ((write_lrzc_header encrypt out u_size last).0 ++ payload)
          (write_lrzc_header encrypt out u_size last).1
        ≡ some (out ++ file))
      × (read_lrzc_header encrypt file
          ≡ some (block_of encrypt u_size last (length payload), payload))
unfolding patch_lrzc_c_size write_lrzc_header read_lrzc_header
read_lrzc_header-patch_lrzc_c_size encrypt out payload u_size last u one small = (
  h ++ payload,
  rw (long, rest) (ap some placed),
  rw
      (
        enough,
        take-append lrzc_len h payload hl,
        parse_lrzc-patched_header encrypt u_size last n u one small,
        drop-append lrzc_len h payload hl,
      )
      refl,
)
  where
    n : ℕ
    n = length payload

    h : List ℕ
    h = patched_header encrypt u_size last n

    hl : length h ≡ lrzc_len
    hl = length-patched_header encrypt u_size last n

    enough : leb lrzc_len (length (h ++ payload)) ≡ true
    enough = ground (arith, length-append h payload, hl)

    all : List ℕ
    all = (out ++ lrzc_header encrypt u_size last) ++ payload

    total : length all ≡ length out + lrzc_len + n
    total = omega (
      arith,
      length-append (out ++ lrzc_header encrypt u_size last) payload,
      length-append out (lrzc_header encrypt u_size last),
      length-lrzc_header encrypt u_size last,
    )

    long : ltb (length all) (length out + lrzc_len) ≡ false
    long = ground (arith, total)

    rest : length all - length out - lrzc_len ≡ n
    rest = omega (arith, total)

    placed : overwrite all (length out + 12) (le_bytes 8 n) ≡ out ++ (h ++ payload)
    placed =
        ap (λ t. overwrite t (length out + 12) (le_bytes 8 n))
          (append_assoc out (lrzc_header encrypt u_size last) payload)
        ∙ overwrite-append out (lrzc_header encrypt u_size last ++ payload) (le_bytes 8 n) 12
        ∙ ap (λ t. out ++ t) (overwrite-lrzc_header encrypt u_size last n payload)
