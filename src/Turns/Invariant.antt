-- ===== src/Turns/Invariant.antt =====
-- Whose turn it is; true at the start and kept by every step.
pub mod Steps
pub mod Passing
pub mod Semaphores
use lrzip.Common.{
  ℕ, zero, suc, ◌+◌, ◌-◌, ◌%◌, ◌≤◌, ◌<◌, ◌≡◌, ◌≢◌, ◌⊎◌, refl, sym, ap, ◌∙◌, arith, Bool, true,
  false, List, [], ◌∷◌, ◌++◌, ◌==◌, if◌then◌else◌, Bool-cases, inl, inr, ltb,
}
use native.Mathlib.Nat.{suc-mod, add-mod, mod-lt, mod-eq_of_lt, mod-eq-sub-mod, mod_self}
use lrzip.Turns.{
  Phase, unlaunched, compressing, waiting, failing, written_out, released, gone, Threads, put,
  next_thread, fresh_threads, unlost,
}

-- `next_thread` counts modulo the number of threads.
pub next_thread_mod : (n k : ℕ) → 0 < n → next_thread n (k % n) ≡ suc k % n
next_thread_mod n k h = elim (Bool-cases (suc (k % n) == n)) [
  | inl e ↦
      let f : suc (k % n) ≡ n = ground arith in
      rw e (sym (suc-mod k n ∙ ap (λ t. t % n) f ∙ mod_self n))
  | inr e ↦ rw e (sym (suc-mod k n ∙ mod-eq_of_lt (ground (arith, mod-lt k h))))
]

-- Of fewer than `n` numbers in a row no two are equal modulo `n`.
pub mod_distinct : (n j k : ℕ) → j < k → k < j + n → j % n ≢ k % n
mod_distinct n j k less hi e =
    let d = k - j in
    let pos : 0 < n = omega arith in
    let f : k % n ≡ (j % n + d) % n =
      ap (λ t. t % n) (omega arith)
      ∙ add-mod j d n
      ∙ ap (λ t. (j % n + t) % n) (mod-eq_of_lt (omega arith)) in
    elim (Bool-cases (ltb (j % n + d) n)) [
      | inl small ↦ absurd (omega (arith, f, mod-eq_of_lt {n = j % n + d} {m = n} (ground arith)))
      | inr big ↦
          let above : n ≤ j % n + d = ground arith in
          absurd (
            omega (
              arith,
              f,
              mod-lt j pos,
              mod-eq-sub-mod {n = j % n + d} {m = n} (ground arith),
              mod-eq_of_lt {n = j % n + d - n} {m = n} (omega (arith, mod-lt j pos)),
            ))
    ]

-- `turn` blocks have passed their turn on.
pub record Inv (n : ℕ) (s : Threads) (turn : ℕ) : Type 0 where
  pub some_threads : 0 < n
  pub output : s.output_thread ≡ turn % n
  pub next : s.next ≡ s.launched % n
  pub index : (k : ℕ) → k < s.launched → s.index k ≡ k % n
  pub past : turn ≤ s.launched
  pub room : s.launched ≤ turn + n
  pub fresh : (k : ℕ) → s.launched ≤ k → s.phase k ≡ unlaunched
  pub ahead :
      (k : ℕ)
      → turn < k
      → k < s.launched
      → (s.phase k ≡ compressing) ⊎ (s.phase k ≡ waiting) ⊎ (s.phase k ≡ failing)
  pub behind : (k : ℕ) → k < turn → (s.phase k ≡ released) ⊎ (s.phase k ≡ gone)
  pub held : (k : ℕ) → k < s.launched → s.phase k ≢ gone → s.cksem (k % n) ≡ false
  pub alone :
      (j k : ℕ) → j < k → k < s.launched → s.phase j ≢ gone → s.phase k ≢ gone → j % n ≢ k % n
  pub launched_phase : (k : ℕ) → k < s.launched → s.phase k ≢ unlaunched
  pub current :
      ((turn < s.launched)
        × (s.phase turn ≡ written_out)
        × (s.written ≡ unlost s.skipped (suc turn)))
      ⊎ (((s.phase turn ≡ compressing)
            ⊎ (s.phase turn ≡ waiting)
            ⊎ (s.phase turn ≡ failing)
            ⊎ (s.phase turn ≡ unlaunched))
          × (s.written ≡ unlost s.skipped turn))
  pub unskipped : (k : ℕ) → turn ≤ k → s.skipped k ≡ false
