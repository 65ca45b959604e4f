-- ===== src/Turns.antt =====
-- stream.c, `clear_buffer` and `compthread`: the compression threads and the order of their output,
-- an access to what they share at a time.
pub mod Invariant
pub mod Order
pub mod Tests
use lrzip.Common.{
  ℕ, zero, suc, ◌+◌, ◌%◌, ◌<◌, ◌≡◌, Bool, true, false, List, [], ◌∷◌, ◌++◌, ◌==◌, if◌then◌else◌,
}

-- Where the thread of a block stands.
pub data Phase : Type 0 where
  unlaunched : Phase
  compressing : Phase  -- before `output_lock`; also where a failed attempt is repeated
  waiting : Phase  -- at `while (output_thread != i)`
  failing : Phase  -- at `out` without a block in the archive, the turn not yet passed on
  written_out : Phase  -- the block is in the archive, the turn not yet passed on
  released : Phase  -- behind `++output_thread`, before `cksem_post`
  gone : Phase

-- What `clear_buffer` and the threads share: the number of blocks handed on, the static `i`,
-- `output_thread`, the semaphores `cksem`, the index and the phase of each block's thread, the blocks
-- written so far, those that were passed over, and whether the process has ended.
pub record Threads : Type 0 where
  pub launched : ℕ
  pub next : ℕ
  pub output_thread : ℕ
  pub cksem : ℕ → Bool
  pub index : ℕ → ℕ
  pub phase : ℕ → Phase
  pub written : List ℕ
  pub skipped : ℕ → Bool
  pub ended : Bool

abbrev pub put {ℓ} : {A : Type ℓ} → (ℕ → A) → ℕ → A → ℕ → A
put f i a j = if i == j then a else f j

-- `if (++i == control->threads) i = 0;`
abbrev pub next_thread : ℕ → ℕ → ℕ
next_thread n i = if suc i == n then 0 else suc i

-- "We own the slot when output_thread == i"
abbrev pub turn_over : ℕ → Threads → ℕ → ℕ
turn_over n s k =
    if s.output_thread == s.index k then next_thread n s.output_thread else s.output_thread

abbrev pub fresh_threads : Threads
fresh_threads = record {
  launched = 0;
  next = 0;
  output_thread = 0;
  cksem = λ i. true;
  index = λ k. 0;
  phase = λ k. unlaunched;
  written = [];
  skipped = λ k. false;
  ended = false;
}

-- The steps with `n` threads. A thread fails before it has waited for its turn, or while it writes; it
-- takes its turn all the same, and passes it on without a block.
pub data Step (n : ℕ) (s : Threads) : Threads → Type 0 where
  launch :
      s.cksem s.next ≡ true
      → Step n s (record s {
        launched = suc s.launched;
        next = next_thread n s.next;
        cksem = put s.cksem s.next false;
        index = put s.index s.launched s.next;
        phase = put s.phase s.launched compressing;
      })
  compressed :
      (k : ℕ) → s.phase k ≡ compressing → Step n s (record s { phase = put s.phase k waiting })
  write :
      (k : ℕ)
      → s.phase k ≡ waiting
      → s.output_thread ≡ s.index k
      → Step n s (record s { phase = put s.phase k written_out; written = s.written ++ (k ∷ []) })
  fail : (k : ℕ) → s.phase k ≡ compressing → Step n s (record s { phase = put s.phase k failing })
  fail_writing :
      (k : ℕ)
      → s.phase k ≡ waiting
      → s.output_thread ≡ s.index k
      → Step n s (record s { phase = put s.phase k failing })
  pass_on :
      (k : ℕ)
      → s.phase k ≡ written_out
      → Step n s (record s { phase = put s.phase k released; output_thread = turn_over n s k })
  skip :
      (k : ℕ)
      → s.phase k ≡ failing
      → s.output_thread ≡ s.index k
      → Step n s (record s {
        phase = put s.phase k released;
        output_thread = turn_over n s k;
        skipped = put s.skipped k true;
      })
  post :
      (k : ℕ)
      → s.phase k ≡ released
      → Step n s (record s { phase = put s.phase k gone; cksem = put s.cksem (s.index k) true })
  -- `failure`, at the end of a thread, in `clear_buffer` or in a function that they call.
  die : Step n s (record s { ended = true })

pub data Reach (n : ℕ) : Threads → Type 0 where
  at_start : Reach n fresh_threads
  later : {s t : Threads} → Reach n s → s.ended ≡ false → Step n s t → Reach n t

-- The blocks 0 to `n` - 1 in order, less those that were lost.
abbrev pub unlost : (ℕ → Bool) → ℕ → List ℕ
unlost lost zero = []
unlost lost (suc n) = if lost n then unlost lost n else unlost lost n ++ (n ∷ [])

abbrev pub is_failing : Phase → Bool
is_failing failing = true
is_failing other = false

-- A block that was passed over, or whose thread has failed.
abbrev pub is_lost : Threads → ℕ → Bool
is_lost s k = if s.skipped k then true else is_failing (s.phase k)
