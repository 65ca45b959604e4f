-- ===== src/Common/Slice.antt =====
-- Runs of bytes of a mapped buffer. A mapped buffer is a function from positions to bytes, the view
-- that the source has of it through a `uchar *`.
use Prim.Native.Nat.{ℕ, zero, suc, ◌+◌, ◌-◌, ◌≤◌, ◌<◌}
use mathlib.Core.Path.{◌≡◌, refl, ap, ap₂, ◌∙◌}
use mathlib.Core.List.{List, [], ◌∷◌, ◌++◌}
use native.Mathlib.Omega.{arith}
use lrzip.Common.Lists.{length, get_or, take, drop}

-- The `n` bytes from position `i` on.
abbrev pub slice : (ℕ → ℕ) → ℕ → ℕ → List ℕ
slice buf i zero = []
slice buf i (suc n) = buf i ∷ slice buf (suc i) n

module _ (buf : ℕ → ℕ) where
  pub length-slice : (i n : ℕ) → length (slice buf i n) ≡ n
  length-slice i zero = refl
  length-slice i (suc n) = ap suc (length-slice (suc i) n)

  pub slice-append :
      (i m n j : ℕ) → i + m ≡ j → slice buf i m ++ slice buf j n ≡ slice buf i (m + n)
  slice-append i zero n j h = ap₂ (λ a b. slice buf a b) (omega arith) (omega arith)
  slice-append i (suc m) n j h =
      let e : suc m + n ≡ suc (m + n) = omega arith in
      rw e (ap (λ t. buf i ∷ t) (slice-append (suc i) m n j (omega arith)))

  pub take-slice : (k i n : ℕ) → k ≤ n → take k (slice buf i n) ≡ slice buf i k
  take-slice zero i n h = refl
  take-slice (suc k) i zero h = absurd (omega arith)
  take-slice (suc k) i (suc n) h = ap (λ t. buf i ∷ t) (take-slice k (suc i) n (omega arith))

  pub drop-slice : (k i n j : ℕ) → i + k ≡ j → drop k (slice buf i n) ≡ slice buf j (n - k)
  drop-slice zero i n j h = ap₂ (λ a b. slice buf a b) (omega arith) (omega arith)
  drop-slice (suc k) i zero j h = let e : 0 - suc k ≡ 0 = omega arith in rw e
  drop-slice (suc k) i (suc n) j h =
      let e : suc n - suc k ≡ n - k = omega arith in rw e (drop-slice k (suc i) n j (omega arith))

shift : (i k : ℕ) → i + suc k ≡ suc i + k
shift i k = omega arith

-- Two runs with the same bytes are one list.
pub slice_ext :
    (a b : ℕ → ℕ) (i j n : ℕ)
    → ((k : ℕ) → k < n → a (i + k) ≡ b (j + k))
    → slice a i n ≡ slice b j n
slice_ext a b i j zero h = refl
slice_ext a b i j (suc n) h =
    let e : i + 0 ≡ i = omega arith in
    let f : j + 0 ≡ j = omega arith in
    ap₂ ◌∷◌ (rw (e, f) at (h 0 (omega arith)))
      (slice_ext a b (suc i) (suc j) n (λ k hk. next k (h (suc k) (omega arith))))
  where
    next : (k : ℕ) → a (i + suc k) ≡ b (j + suc k) → a (suc i + k) ≡ b (suc j + k)
    next k e = cc (shift i k, shift j k)

-- A list read through its positions.
pub slice-get_or : (xs : List ℕ) (d : ℕ) → slice (λ i. get_or xs i d) 0 (length xs) ≡ xs
slice-get_or [] d = refl
slice-get_or (x ∷ xs) d =
    ap (λ t. x ∷ t)
      (slice_ext (λ i. get_or (x ∷ xs) i d) (λ i. get_or xs i d) 1 0 (length xs)
          (λ k h.
            let e : 1 + k ≡ suc k = omega arith in let f : 0 + k ≡ k = omega arith in rw (e, f))
        ∙ slice-get_or xs d)
