-- ===== src/Rzip/Width.antt =====
-- rzip.c, `rzip_fd`: the byte width of a chunk's offsets.
use native.Mathlib.Nat.{pow-le-pow_right, one-le-pow, mul-zero}
use lrzip.Common.{
  ℕ, zero, suc, ◌+◌, ◌*◌, ◌/◌, ◌%◌, ◌^◌, ◌≤◌, ◌<◌, ◌≡◌, refl, ap, arith, ltb, ◌==◌, if◌then◌else◌,
  Bool-cases, inl, inr,
}

-- `while (st->chunk_size >> bits > 0) bits++`
unfoldable pub width_loop : ℕ → ℕ → ℕ → ℕ
width_loop zero chunk_size bits = bits
width_loop (suc fuel) chunk_size bits =
    let rest = width_loop fuel chunk_size (suc bits) in
    if ltb 0 (chunk_size / 2 ^ bits) then rest else bits

abbrev pub first_bits : ℕ
first_bits = 8

-- A chunk is shorter than 2 ^ 63, so 55 rounds are enough.
unfoldable pub chunk_width : ℕ → ℕ
chunk_width chunk_size =
    let bits = width_loop 55 chunk_size first_bits in bits / 8 + (if bits % 8 == 0 then 0 else 1)

quotient_zero : (n d : ℕ) → 1 ≤ d → n / d ≡ 0 → n < d
quotient_zero n d h e = omega (arith, ap (λ q. d * q) e, mul-zero d)

width_loop_lem :
    (fuel n bits : ℕ)
    → n < 2 ^ (bits + fuel)
    → (n < 2 ^ width_loop fuel n bits)
      × (width_loop fuel n bits ≤ bits + fuel)
      × (bits ≤ width_loop fuel n bits)
unfolding width_loop
width_loop_lem zero n bits h =
    let e : bits + 0 ≡ bits = omega arith in (rw e at h, omega arith, omega arith)
width_loop_lem (suc fuel) n bits h = elim (Bool-cases (ltb 0 (n / 2 ^ bits))) [
  | inl e ↦ rw e (
      let (a, b, c) =
        width_loop_lem fuel n (suc bits)
          (let e : suc bits + fuel ≡ bits + suc fuel = omega arith in rw e h) in
      (a, omega arith, omega arith))
  | inr e ↦ rw e (
    quotient_zero n (2 ^ bits) (one-le-pow bits 2 (omega arith)) (ground arith),
    omega arith,
    omega arith,
  )
]

power_of_256 : (w : ℕ) → 2 ^ (w * 8) ≡ 256 ^ w
power_of_256 zero = refl
power_of_256 (suc w) =
    let e : suc w * 8 ≡ suc (suc (suc (suc (suc (suc (suc (suc (w * 8)))))))) = omega arith in
    rw e (omega (arith, power_of_256 w))

whole_bytes :
    (bits : ℕ)
    → 8 ≤ bits
    → bits ≤ 63
    → (2 ^ bits ≤ 256 ^ (bits / 8 + (if bits % 8 == 0 then 0 else 1)))
      × (1 ≤ bits / 8 + (if bits % 8 == 0 then 0 else 1))
      × (bits / 8 + (if bits % 8 == 0 then 0 else 1) ≤ 8)
whole_bytes bits h k = (rw (power_of_256 width) at below, ground arith, ground arith)
  where
    width : ℕ
    width = bits / 8 + (if bits % 8 == 0 then 0 else 1)

    below : 2 ^ bits ≤ 2 ^ (width * 8)
    below = pow-le-pow_right (omega arith) (ground arith)

-- For a chunk below 2 ^ 63 bytes, its size fits the width of its offsets, which is one to eight
-- bytes.
pub chunk_width-fits :
    (chunk_size : ℕ)
    → chunk_size < 2 ^ 63
    → (chunk_size < 256 ^ chunk_width chunk_size)
      × (1 ≤ chunk_width chunk_size)
      × (chunk_width chunk_size ≤ 8)
unfolding chunk_width
chunk_width-fits n h =
    let (a, b, c) = width_loop_lem 55 n first_bits h in
    let (fits, one, eight) = whole_bytes (width_loop 55 n first_bits) c b in
    (omega (arith, a, fits), one, eight)
