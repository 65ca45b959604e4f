-- ===== src/Header/Kdf.antt =====
-- lrzip.c, the iteration count of the legacy key derivation: `nloops` encodes it in two bytes of the
-- salt, `enc_loops` decodes it.
use native.Mathlib.Nat.{pow-le-pow_right, one-le-pow, mul-le-mul_right}
use lrzip.Common.{
  ℕ, zero, suc, ◌+◌, ◌-◌, ◌*◌, ◌/◌, ◌^◌, ◌≤◌, ◌<◌, ◌≡◌, arith, ltb, ◌==◌, if◌then◌else◌, Bool,
  false, ◌&&◌, not, Option, none, some, Bool-cases, ltb→lt, inl, inr,
}

-- `for (nbits = 0; nloops > 255; nbits++) nloops = nloops >> 1`: `nbits` and `nloops`.
pub shift_loop : ℕ → ℕ → ℕ → ℕ × ℕ
shift_loop zero nbits n = (nbits, n)
shift_loop (suc fuel) nbits n =
    let rest = shift_loop fuel (nbits + 1) (n / 2) in if ltb 255 n then rest else (nbits, n)

-- "Keep within enc_loops() limits."
pub cap_loops : ℕ × ℕ → ℕ × ℕ
cap_loops r = if ltb 40 (r.0) then (40, 255) else r

abbrev pub arbitrary : ℕ
arbitrary = 1000000

-- `*b1` and `*b2`. `estimate` is the floating-point product of the source, as an `i64`: 63 halvings
-- are enough.
unfoldable pub nloops : ℕ → ℕ × ℕ
unfolding shift_loop cap_loops
nloops estimate =
    cap_loops (shift_loop 63 0 (if ltb estimate arbitrary then arbitrary else estimate))

abbrev pub int64_max : ℕ
int64_max = 2 ^ 63 - 1

-- `none` is the return of -1.
unfoldable pub enc_loops : ℕ → ℕ → Option ℕ
enc_loops b1 b2 =
    if ltb b2 1
    then none
    else if ltb 40 b1
    then none
    else if not (b1 == 0) && ltb (int64_max / 2 ^ b1) b2
    then none
    else some (b2 * 2 ^ b1)

shift_loop_lem :
    (fuel nbits n : ℕ)
    → 1 ≤ n
    → n < 2 ^ fuel
    → (1 ≤ (shift_loop fuel nbits n).1) × ((shift_loop fuel nbits n).1 ≤ 255)
unfolding shift_loop
shift_loop_lem zero nbits n one h = (omega arith, omega arith)
shift_loop_lem (suc fuel) nbits n one h = elim (Bool-cases (ltb 255 n)) [
  | inl e ↦ rw e (shift_loop_lem fuel (nbits + 1) (n / 2) (ground arith) (omega arith))
  | inr e ↦ rw e (one, ground arith)
]

large_quotient : (d : ℕ) → 1 ≤ d → d ≤ 2 ^ 40 → 255 ≤ int64_max / d
large_quotient d one h = elim (Bool-cases (ltb (int64_max / d) 255)) [
  | inl e ↦ absurd (below (ltb→lt _ _ e))
  | inr e ↦ ground arith
]
  where
    below : int64_max / d < 255 → ⊥
    below l = omega (arith, mul-le-mul_right d l)

enc_loops_lem : (b1 b2 : ℕ) → b1 ≤ 40 → 1 ≤ b2 → b2 ≤ 255 → enc_loops b1 b2 ≡ some (b2 * 2 ^ b1)
unfolding enc_loops
enc_loops_lem b1 b2 h one small =
    let low : ltb b2 1 ≡ false = ground arith in
    let bits : ltb 40 b1 ≡ false = ground arith in rw (low, bits, fits) (either_way (not (b1 == 0)))
  where
    either_way : (b : Bool) → (if b && false then none else some (b2 * 2 ^ b1)) ≡ some (b2 * 2 ^ b1)
    either_way b = ground arith

    power : 2 ^ b1 ≤ 2 ^ 40
    power = pow-le-pow_right (omega arith) h

    quotient : 255 ≤ int64_max / 2 ^ b1
    quotient = large_quotient (2 ^ b1) (one-le-pow b1 2 (omega arith)) power

    fits : ltb (int64_max / 2 ^ b1) b2 ≡ false
    fits = ground (arith, quotient)

-- For an estimate below 2 ^ 63, `enc_loops` accepts the two bytes that `nloops` encodes, and
-- decodes them to the count that `nloops` returns; the second byte is 1 to 255, and the first at
-- most 40.
pub nloops-enc_loops :
    (estimate : ℕ)
    → estimate < 2 ^ 63
    → (enc_loops (nloops estimate).0 (nloops estimate).1
        ≡ some ((nloops estimate).1 * 2 ^ (nloops estimate).0))
      × (1 ≤ (nloops estimate).1)
      × ((nloops estimate).1 ≤ 255)
      × ((nloops estimate).0 ≤ 40)
unfolding nloops cap_loops
nloops-enc_loops estimate h =
    capped (shift_loop 63 0 n) (shift_loop_lem 63 0 n (ground arith) (ground arith))
  where
    n : ℕ
    n = if ltb estimate arbitrary then arbitrary else estimate

    capped :
        (r : ℕ × ℕ)
        → (1 ≤ r.1) × (r.1 ≤ 255)
        → (enc_loops (cap_loops r).0 (cap_loops r).1 ≡ some ((cap_loops r).1 * 2 ^ (cap_loops r).0))
          × (1 ≤ (cap_loops r).1)
          × ((cap_loops r).1 ≤ 255)
          × ((cap_loops r).0 ≤ 40)
    capped r (one, small) = elim (Bool-cases (ltb 40 (r.0))) [
      | inl e ↦ rw e (
        enc_loops_lem 40 255 (omega arith) (omega arith) (omega arith),
        omega arith,
        omega arith,
        omega arith,
      )
      | inr e ↦ rw e (enc_loops_lem (r.0) (r.1) (ground arith) one small, one, small, ground arith)
    ]
