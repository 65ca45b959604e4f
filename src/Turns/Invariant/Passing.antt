-- ===== src/Turns/Invariant/Passing.antt =====
-- The end of a turn keeps the invariant: the block is written, or it is passed over.
use lrzip.Common.{
  ℕ, suc, ◌≤◌, ◌<◌, ◌≡◌, ◌≢◌, refl, sym, ap, ◌∙◌, arith, Bool, true, false, ◌==◌, Bool-cases, inl,
  inr, ltb, ==_refl,
}
use lrzip.Turns.{failing, written_out, released, gone, Threads, put, next_thread, turn_over, unlost}
use lrzip.Turns.Invariant.{Inv, next_thread_mod}
use lrzip.Turns.Invariant.Steps.{
  put_same, put_other, unlost-put, fresh_kept, held_kept, alone_kept, whose, active, not_yet,
  still_launched,
}

module _ {n : ℕ} {s : Threads} {turn : ℕ} (v : Inv n s turn) where
  pub turn_here : s.phase turn ≢ gone
  turn_here e = elim v.current [
    | inl (a, b, w) ↦ cc
    | inr (inl a, w) ↦ cc
    | inr (inr (inl a), w) ↦ cc
    | inr (inr (inr (inl a)), w) ↦ cc
    | inr (inr (inr (inr a)), w) ↦ cc
  ]

  -- Only the turn's block is written and not passed on.
  writer : (k : ℕ) → s.phase k ≡ written_out → k ≡ turn
  writer k c = elim (Bool-cases (ltb k turn)) [
    | inl past ↦ elim (v.behind k (ground arith)) [ inl e ↦ absurd (cc) | inr e ↦ absurd (cc) ]
    | inr ge ↦ elim (Bool-cases (ltb k s.launched)) [
      | inl lt ↦ elim (Bool-cases (k == turn)) [
        | inl same ↦ ground arith
        | inr other ↦ elim (v.ahead k (ground arith) (ground arith)) [
          | inl e ↦ absurd (cc)
          | inr (inl e) ↦ absurd (cc)
          | inr (inr e) ↦ absurd (cc)
        ]
      ]
      | inr above ↦ let e = v.fresh k (ground arith) in absurd (cc)
    ]
  ]

  written :
      s.phase turn ≡ written_out → (turn < s.launched) × (s.written ≡ unlost s.skipped (suc turn))
  written c = elim v.current [
    | inl (a, b, w) ↦ (a, w)
    | inr (inl a, w) ↦ absurd (cc)
    | inr (inr (inl a), w) ↦ absurd (cc)
    | inr (inr (inr (inl a)), w) ↦ absurd (cc)
    | inr (inr (inr (inr a)), w) ↦ absurd (cc)
  ]

  -- The turn's thread passes its turn on, with or without a block.
  turn-Inv :
      (k : ℕ) (skipped : ℕ → Bool)
      → k ≡ turn
      → turn < s.launched
      → s.phase k ≢ gone
      → ((j : ℕ) → suc turn ≤ j → skipped j ≡ false)
      → s.written ≡ unlost skipped (suc turn)
      → Inv n
          (record s {
            phase = put s.phase k released;
            output_thread = turn_over n s k;
            skipped = skipped;
          })
          (suc turn)
  turn-Inv k skipped e lt here clear w =
      let mine : (s.output_thread == s.index k) ≡ true =
        ==_refl _ _ (v.output ∙ sym (v.index turn lt) ∙ ap s.index (sym e)) in
      record {
        some_threads = v.some_threads;
        output = rw mine (ap (next_thread n) v.output ∙ next_thread_mod n turn v.some_threads);
        next = v.next;
        index = v.index;
        past = omega arith;
        room = omega (arith, v.room);
        fresh = fresh_kept v k released here (omega arith);
        ahead =
            λ j q r. rw (put_other s.phase k j released (omega arith)) (v.ahead j (omega arith) r);
        behind = λ j q. elim (Bool-cases (k == j)) [
          | inl same ↦ inl (put_same s.phase k j released (ground arith))
          | inr other ↦
              rw (put_other s.phase k j released (ground arith)) (v.behind j (ground arith))
        ];
        launched_phase = still_launched v k released (λ e. cc);
        held = held_kept v k released here;
        alone = alone_kept v k released here;
        unskipped = clear;
        current = inr (
          rw (put_other s.phase k (suc turn) released (omega arith))
              (elim (Bool-cases (ltb (suc turn) s.launched)) [
                | inl more ↦ elim (v.ahead (suc turn) (omega arith) (ground arith)) [
                  | inl a ↦ inl a
                  | inr (inl a) ↦ inr (inl a)
                  | inr (inr a) ↦ inr (inr (inl a))
                ]
                | inr none_left ↦ inr (inr (inr (v.fresh (suc turn) (ground arith))))
              ]),
          w,
        );
      }

  pub pass_on-Inv :
      (k : ℕ)
      → s.phase k ≡ written_out
      → Inv n
          (record s { phase = put s.phase k released; output_thread = turn_over n s k })
          (suc turn)
  pass_on-Inv k c =
      let e = writer k c in
      let (lt, w) = written (ap s.phase (sym e) ∙ c) in
      turn-Inv k s.skipped e lt (λ q. absurd (cc)) (λ j q. v.unskipped j (omega arith)) w

  pub skip-Inv :
      (k : ℕ)
      → s.phase k ≡ failing
      → s.output_thread ≡ s.index k
      → Inv n
          (record s {
            phase = put s.phase k released;
            output_thread = turn_over n s k;
            skipped = put s.skipped k true;
          })
          (suc turn)
  skip-Inv k c mine =
      let (lt, ge) = active v k (inr (inr c)) in
      let e = whose v k lt ge mine in
      let now : put s.skipped k true turn ≡ true = put_same s.skipped k turn true e in
      turn-Inv k (put s.skipped k true) e (omega arith) (λ q. absurd (cc))
        (λ j q. put_other s.skipped k j true (omega arith) ∙ v.unskipped j (omega arith))
        (not_yet v k e (inr (ap s.phase (sym e) ∙ c))
          ∙ sym (unlost-put s.skipped k true turn (omega arith))
          ∙ sym (lost_block (put s.skipped k true) now))
    where
      lost_block : (f : ℕ → Bool) → f turn ≡ true → unlost f (suc turn) ≡ unlost f turn
      lost_block f h = rw h refl

  pub die-Inv : Inv n (record s { ended = true }) turn
  die-Inv = record {
    some_threads = v.some_threads;
    output = v.output;
    next = v.next;
    index = v.index;
    past = v.past;
    room = v.room;
    fresh = v.fresh;
    ahead = v.ahead;
    behind = v.behind;
    held = v.held;
    alone = v.alone;
    launched_phase = v.launched_phase;
    current = v.current;
    unskipped = v.unskipped;
  }
