-- ===== src/Turns/Order.antt =====
-- stream.c: the archive's blocks stand in the order in which `clear_buffer` handed them on, and no
-- thread waits for its turn for ever.
use lrzip.Common.{
  ℕ, zero, suc, ◌+◌, ◌-◌, ◌≤◌, ◌<◌, ◌≡◌, refl, sym, ap, ◌∙◌, arith, Bool, true, false, ◌==◌,
  if◌then◌else◌, Bool-cases, inl, inr,
}
use mathlib.Core.Path.{subst}
use lrzip.Turns.{
  Phase, waiting, failing, written_out, released, Threads, Step, launch, compressed, write, fail,
  fail_writing, pass_on, skip, post, die, Reach, at_start, later, put, unlost, is_failing, is_lost,
}
use lrzip.Turns.Invariant.{Inv}
use lrzip.Turns.Invariant.Steps.{fresh_threads-Inv, moves-Inv, write-Inv, put_same, put_other}
use lrzip.Turns.Invariant.Passing.{pass_on-Inv, skip-Inv, die-Inv}
use lrzip.Turns.Invariant.Semaphores.{post-Inv, launch-Inv}

-- Each state that is reached is in the invariant, for a number of turns.
Step-Inv : {n : ℕ} {s t : Threads} {turn : ℕ} → Step n s t → Inv n s turn → (u : ℕ) × Inv n t u
Step-Inv {turn = turn} (launch free) v = (turn, launch-Inv v free)
Step-Inv {turn = turn} (compressed k c) v = (turn, moves-Inv v k waiting (inl c) (inl refl))
Step-Inv {turn = turn} (write k c e) v = (turn, write-Inv v k c e)
Step-Inv {turn = turn} (fail k c) v = (turn, moves-Inv v k failing (inl c) (inr refl))
Step-Inv {turn = turn} (fail_writing k c e) v = (turn, moves-Inv v k failing (inr c) (inr refl))
Step-Inv {turn = turn} (pass_on k c) v = (suc turn, pass_on-Inv v k c)
Step-Inv {turn = turn} (skip k c e) v = (suc turn, skip-Inv v k c e)
Step-Inv {turn = turn} (post k c) v = (turn, post-Inv v k c)
Step-Inv {turn = turn} die v = (turn, die-Inv v)

Reach-Inv : {n : ℕ} {s : Threads} → 0 < n → Reach n s → (turn : ℕ) × Inv n s turn
Reach-Inv {n} h at_start = (0, fresh_threads-Inv n h)
Reach-Inv h (later r live st) = Step-Inv st (Reach-Inv h r).1

-- With one thread at least, in every state that the threads can reach, failures included, the
-- blocks that are written are the first `m` handed on, in order and each once, less those that a
-- failed thread passed over, and at most as many blocks as there are threads are handed on behind
-- those `m`.
pub written_in_order :
    (n : ℕ) (s : Threads)
    → 0 < n
    → Reach n s
    → (m : ℕ) × (s.written ≡ unlost s.skipped m) × (m ≤ s.launched) × (s.launched ≤ m + n)
written_in_order n s h r =
    let (turn, v) = Reach-Inv h r in
    elim v.current [
      | inl (a, b, w) ↦ (suc turn, w, omega arith, omega (arith, v.room))
      | inr (b, w) ↦ (turn, w, v.past, v.room)
    ]

-- Steps of the threads that are there, with no further block handed on and no failure.
pub data Run (n : ℕ) : Threads → Threads → Type 0 where
  stay : {s : Threads} → Run n s s
  go :
      {s t u : Threads}
      → Step n s t
      → s.ended ≡ false
      → t.launched ≡ s.launched
      → ((k : ℕ) → is_lost t k ≡ is_lost s k)
      → Run n t u
      → Run n s u

is_failing-put :
    (f : ℕ → Phase) (k j : ℕ) (p : Phase)
    → is_failing p ≡ is_failing (f k)
    → is_failing (put f k p j) ≡ is_failing (f j)
is_failing-put f k j p h = elim (Bool-cases (k == j)) [
  | inl e ↦
      ap is_failing (put_same f k j p (ground arith))
      ∙ h
      ∙ ap (λ i. is_failing (f i)) (ground arith)
  | inr e ↦ ap is_failing (put_other f k j p (ground arith))
]

-- A new phase that is no failure where the old one was none.
still_lost :
    (s : Threads) (k j : ℕ) (p : Phase)
    → is_failing p ≡ is_failing (s.phase k)
    → is_lost (record s { phase = put s.phase k p }) j ≡ is_lost s j
still_lost s k j p h = ap (λ b. if s.skipped j then true else b) (is_failing-put s.phase k j p h)

skipped_lost :
    (s : Threads) (k j : ℕ)
    → s.phase k ≡ failing
    → (if put s.skipped k true j then true else is_failing (put s.phase k released j)) ≡ is_lost s j
skipped_lost s k j c = elim (Bool-cases (k == j)) [
  | inl e ↦
      let f : is_failing (s.phase j) ≡ true =
        ap (λ i. is_failing (s.phase i)) (ground arith) ∙ ap is_failing c in
      let now = put_same s.skipped k j true (ground arith) in rw (now, f) (sym (both (s.skipped j)))
  | inr e ↦
      let d = put_other s.skipped k j true (ground arith) in
      let p = put_other s.phase k j released (ground arith) in rw (d, p) refl
]
  where
    both : (b : Bool) → (if b then true else true) ≡ true
    both b = ground arith

-- The turn's block is written, or passed over, and the turn passed on.
record Finished (n turn : ℕ) (s t : Threads) : Type 0 where
  run : Run n s t
  launched : t.launched ≡ s.launched
  live : t.ended ≡ false
  lost : (k : ℕ) → is_lost t k ≡ is_lost s k
  inv : Inv n t turn

before :
    {n turn : ℕ} {s t u : Threads}
    → Step n s t
    → s.ended ≡ false
    → t.launched ≡ s.launched
    → ((k : ℕ) → is_lost t k ≡ is_lost s k)
    → Finished n turn t u
    → Finished n turn s u
before st live e l f = record {
  run = go st live e l f.run;
  launched = f.launched ∙ e;
  live = f.live;
  lost = λ k. f.lost k ∙ l k;
  inv = f.inv;
}

done : {n turn : ℕ} {s : Threads} → s.ended ≡ false → Inv n s turn → Finished n turn s s
done live v = record { run = stay; launched = refl; live = live; lost = λ k. refl; inv = v }

module _ {n turn : ℕ} where
  passes :
      {s : Threads}
      → Inv n s turn
      → s.ended ≡ false
      → s.phase turn ≡ written_out
      → (t : Threads) × Finished n (suc turn) s t
  passes {s} v live b = (
    _,
    before (pass_on turn b) live refl (λ k. still_lost s turn k released (ap is_failing (sym b)))
        (done live (pass_on-Inv v turn b)),
  )

  writes :
      {s : Threads}
      → Inv n s turn
      → s.ended ≡ false
      → turn < s.launched
      → s.phase turn ≡ waiting
      → (t : Threads) × Finished n (suc turn) s t
  writes {s} v live lt b =
      let mine : s.output_thread ≡ s.index turn = v.output ∙ sym (v.index turn lt) in
      let (t, f) =
        passes (write-Inv v turn b mine) live (put_same s.phase turn turn written_out refl) in
      (
        t,
        before (write turn b mine) live refl
            (λ k. still_lost s turn k written_out (ap is_failing (sym b))) f,
      )

  finish_turn :
      {s : Threads}
      → Inv n s turn
      → s.ended ≡ false
      → turn < s.launched
      → (t : Threads) × Finished n (suc turn) s t
  finish_turn {s} v live lt = elim v.current [
    | inl (a, b, w) ↦ passes v live b
    | inr (inl b, w) ↦
        let c = moves-Inv v turn waiting (inl b) (inl refl) in
        let (t, f) = writes c live lt (put_same s.phase turn turn waiting refl) in
        (
          t,
          before (compressed turn b) live refl
              (λ k. still_lost s turn k waiting (ap is_failing (sym b))) f,
        )
    | inr (inr (inl b), w) ↦ writes v live lt b
    | inr (inr (inr (inl b)), w) ↦
        let mine : s.output_thread ≡ s.index turn = v.output ∙ sym (v.index turn lt) in
        (
          _,
          before (skip turn b mine) live refl (λ k. skipped_lost s turn k b)
              (done live (skip-Inv v turn b mine)),
        )
    | inr (inr (inr (inr b)), w) ↦ absurd (v.launched_phase turn lt b)
  ]

Run-trans : {n : ℕ} {s t u : Threads} → Run n s t → Run n t u → Run n s u
Run-trans stay q = q
Run-trans (go st live e l r) q = go st live e l (Run-trans r q)

drain :
    {n : ℕ} (left turn : ℕ) (s : Threads)
    → Inv n s turn
    → s.ended ≡ false
    → turn + left ≡ s.launched
    → (t : Threads) × Finished n s.launched s t
drain {n} zero turn s v live e =
    let f : turn ≡ s.launched = omega arith in (s, done live (subst (Inv n s) (f) v))
drain {n} (suc left) turn s v live e =
    let (t, f) = finish_turn v live (omega arith) in
    let (t', f') = drain left (suc turn) t f.inv f.live (omega (arith, f.launched)) in
    (
      t',
      record {
        run = Run-trans f.run f'.run;
        launched = f'.launched ∙ f.launched;
        live = f'.live;
        lost = λ k. f'.lost k ∙ f.lost k;
        inv = subst (Inv n t') (f.launched) f'.inv;
      },
    )

-- Once every turn is over, what is lost has been passed over.
skipped-is_lost :
    {n turn : ℕ} {s : Threads} (v : Inv n s turn) (k : ℕ) → k < turn → s.skipped k ≡ is_lost s k
skipped-is_lost {s = s} v k lt =
    let f : is_failing (s.phase k) ≡ false = elim (v.behind k lt) [
      | inl e ↦ ap is_failing e
      | inr e ↦ ap is_failing e
    ] in
    rw f (same (s.skipped k))
  where
    same : (b : Bool) → b ≡ (if b then true else false)
    same b = ground arith

unlost_ext : (f g : ℕ → Bool) (m : ℕ) → ((k : ℕ) → k < m → f k ≡ g k) → unlost f m ≡ unlost g m
unlost_ext f g zero h = refl
unlost_ext f g (suc m) h = rw (h m (omega arith), unlost_ext f g m (λ k lt. h k (omega arith))) refl

-- With one thread at least, from every state that the threads can reach before the process ends
-- there are steps of the threads, with no further block handed on and no further failure, to a
-- state where all the blocks handed on are written in order, less those that were passed over and
-- those whose threads have failed: no thread waits for ever for a thread that fails.
pub all_written :
    (n : ℕ) (s : Threads)
    → 0 < n
    → Reach n s
    → s.ended ≡ false
    → (t : Threads) × (Run n s t)
      × (t.launched ≡ s.launched)
      × (t.written ≡ unlost (is_lost s) s.launched)
all_written n s h r live =
    let (turn, v) = Reach-Inv h r in
    let (t, f) = drain (s.launched - turn) turn s v live (omega (arith, v.past)) in
    let u = f.inv in
    (
      t,
      f.run,
      f.launched,
      elim u.current [
        | inl (a, b, w) ↦ absurd (omega (arith, f.launched))
        | inr (b, w) ↦
            w
            ∙ unlost_ext t.skipped (is_lost s) s.launched
                (λ k lt. skipped-is_lost u k lt ∙ f.lost k)
      ],
    )
