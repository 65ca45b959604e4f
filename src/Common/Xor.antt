-- ===== src/Common/Xor.antt =====
-- The laws of `bit_xor`, from its binary digits.
use Prim.Native.Nat.{
  ℕ, zero, suc, ◌+◌, ◌*◌, ◌/◌, ◌%◌, ◌≤◌, ◌<◌, bit_xor, digits, differ, bit_xor-bitwise,
}
use mathlib.Core.Path.{◌≡◌, refl, sym, ap, ◌∙◌}
use mathlib.Core.Logic.{◌⊎◌, inl, inr}
use native.Mathlib.Omega.{arith}

abbrev xor_digits : ℕ → ℕ → ℕ → ℕ
xor_digits n a b = digits (λ b. b) differ n a b

xor_digits_fuel : (n m a b : ℕ) → a ≤ n → a ≤ m → xor_digits n a b ≡ xor_digits m a b
xor_digits_fuel zero zero a b p q = refl
xor_digits_fuel zero (suc m) zero b p q = refl
xor_digits_fuel zero (suc m) (suc a) b p q = absurd (omega arith)
xor_digits_fuel (suc n) zero zero b p q = refl
xor_digits_fuel (suc n) zero (suc a) b p q = absurd (omega arith)
xor_digits_fuel (suc n) (suc m) zero b p q = refl
xor_digits_fuel (suc n) (suc m) (suc a) b p q =
    omega (arith, xor_digits_fuel n m (suc a / 2) (b / 2) (omega arith) (omega arith))

pub zero-bit_xor : (b : ℕ) → bit_xor 0 b ≡ b
zero-bit_xor b = bit_xor-bitwise 0 b

bits_differ : (b : ℕ) → differ 0 (b % 2) ≡ b % 2
bits_differ b = refl

bit_xor_step : (a b : ℕ) → bit_xor a b ≡ bit_xor (a / 2) (b / 2) * 2 + differ (a % 2) (b % 2)
bit_xor_step zero b = omega (arith, zero-bit_xor b, zero-bit_xor (b / 2), bits_differ b)
bit_xor_step (suc a) b = omega (
  arith,
  bit_xor-bitwise (suc a) b,
  bit_xor-bitwise (suc a / 2) (b / 2),
  xor_digits_fuel a (suc a / 2) (suc a / 2) (b / 2) (omega arith) (omega arith),
)

bit : (a : ℕ) → (a % 2 ≡ 0) ⊎ (a % 2 ≡ 1)
bit a = ground arith

differ-bit : (a b : ℕ) → differ (a % 2) (b % 2) < 2
differ-bit a b = elim (bit a) [
  | inl p ↦ elim (bit b) [ inl q ↦ rw (p, q) (omega arith) | inr q ↦ rw (p, q) (omega arith) ]
  | inr p ↦ elim (bit b) [ inl q ↦ rw (p, q) (omega arith) | inr q ↦ rw (p, q) (omega arith) ]
]

half-bit_xor : (a b : ℕ) → bit_xor a b / 2 ≡ bit_xor (a / 2) (b / 2)
half-bit_xor a b = omega (arith, bit_xor_step a b, differ-bit a b)

low-bit_xor : (a b : ℕ) → bit_xor a b % 2 ≡ differ (a % 2) (b % 2)
low-bit_xor a b = omega (arith, bit_xor_step a b, differ-bit a b)

-- Numbers with the same half and the same lowest digit are the same.
same_digits : (a b : ℕ) → a / 2 ≡ b / 2 → a % 2 ≡ b % 2 → a ≡ b
same_digits a b h l = omega arith

-- `(t ^ a) ^ b`, with the parts in the other order.
swap_low :
    (t a b : ℕ) → differ (differ (t % 2) (a % 2)) (b % 2) ≡ differ (differ (t % 2) (b % 2)) (a % 2)
swap_low t a b = elim (bit t) [
  | inl p ↦ elim (bit a) [
    | inl q ↦ elim (bit b) [ inl r ↦ rw (p, q, r) refl | inr r ↦ rw (p, q, r) refl ]
    | inr q ↦ elim (bit b) [ inl r ↦ rw (p, q, r) refl | inr r ↦ rw (p, q, r) refl ]
  ]
  | inr p ↦ elim (bit a) [
    | inl q ↦ elim (bit b) [ inl r ↦ rw (p, q, r) refl | inr r ↦ rw (p, q, r) refl ]
    | inr q ↦ elim (bit b) [ inl r ↦ rw (p, q, r) refl | inr r ↦ rw (p, q, r) refl ]
  ]
]

cancel_low : (t a : ℕ) → differ (differ (t % 2) (a % 2)) (a % 2) ≡ t % 2
cancel_low t a = elim (bit t) [
  | inl p ↦ elim (bit a) [ inl q ↦ rw (p, q) refl | inr q ↦ rw (p, q) refl ]
  | inr p ↦ elim (bit a) [ inl q ↦ rw (p, q) refl | inr q ↦ rw (p, q) refl ]
]

low-twice : (t a b : ℕ) → bit_xor (bit_xor t a) b % 2 ≡ differ (differ (t % 2) (a % 2)) (b % 2)
low-twice t a b = low-bit_xor (bit_xor t a) b ∙ ap (λ d. differ d (b % 2)) (low-bit_xor t a)

half-twice : (t a b : ℕ) → bit_xor (bit_xor t a) b / 2 ≡ bit_xor (bit_xor (t / 2) (a / 2)) (b / 2)
half-twice t a b = half-bit_xor (bit_xor t a) b ∙ ap (λ d. bit_xor d (b / 2)) (half-bit_xor t a)

swap_fuel : (n t a b : ℕ) → t + a + b ≤ n → bit_xor (bit_xor t a) b ≡ bit_xor (bit_xor t b) a
swap_fuel zero t a b h =
    let p : t ≡ 0 = omega arith in
    let q : a ≡ 0 = omega arith in let r : b ≡ 0 = omega arith in rw (p, q, r) refl
swap_fuel (suc n) t a b h = elim (small t a b) [
  | inl z ↦ swap_fuel n t a b (omega arith)
  | inr lt ↦
      same_digits _ _
        (half-twice t a b
          ∙ swap_fuel n (t / 2) (a / 2) (b / 2) (omega arith)
          ∙ sym (half-twice t b a))
        (low-twice t a b ∙ swap_low t a b ∙ sym (low-twice t b a))
]
  where
    small : (t a b : ℕ) → (t + a + b ≡ 0) ⊎ (0 < t + a + b)
    small t a b = ground arith

-- The order in which two numbers are put into a third does not matter.
pub bit_xor_swap : (t a b : ℕ) → bit_xor (bit_xor t a) b ≡ bit_xor (bit_xor t b) a
bit_xor_swap t a b = swap_fuel (t + a + b) t a b (omega arith)

cancel_fuel : (n t a : ℕ) → t + a ≤ n → bit_xor (bit_xor t a) a ≡ t
cancel_fuel zero t a h =
    let p : t ≡ 0 = omega arith in let q : a ≡ 0 = omega arith in rw (p, q) refl
cancel_fuel (suc n) t a h = elim (small t a) [
  | inl z ↦ cancel_fuel n t a (omega arith)
  | inr lt ↦
      same_digits _ _ (half-twice t a a ∙ cancel_fuel n (t / 2) (a / 2) (omega arith))
        (low-twice t a a ∙ cancel_low t a)
]
  where
    small : (t a : ℕ) → (t + a ≡ 0) ⊎ (0 < t + a)
    small t a = ground arith

-- What is put in twice is out again.
pub bit_xor_cancel : (t a : ℕ) → bit_xor (bit_xor t a) a ≡ t
bit_xor_cancel t a = cancel_fuel (t + a) t a (omega arith)
