-- ===== src/Turns/Invariant/Steps.antt =====
-- The first state has the invariant, and a step on the way of a block to the archive keeps it.
use lrzip.Common.{
  ℕ, zero, suc, ◌%◌, ◌≤◌, ◌<◌, ◌≡◌, ◌≢◌, ◌⊎◌, refl, sym, ap, ap₂, ◌∙◌, arith, Bool, true, false, [],
  ◌∷◌, ◌++◌, ◌==◌, Bool-cases, inl, inr, ltb, ==_refl,
}
use lrzip.Turns.{
  Phase, unlaunched, compressing, waiting, failing, written_out, gone, Threads, put, fresh_threads,
  unlost,
}
use lrzip.Turns.Invariant.{Inv, mod_distinct}

pub fresh_threads-Inv : (n : ℕ) → 0 < n → Inv n fresh_threads 0
fresh_threads-Inv n h = record {
  some_threads = h;
  output = ground arith;
  next = ground arith;
  index = λ k q. absurd (omega arith);
  past = omega arith;
  room = omega arith;
  fresh = λ k q. refl;
  ahead = λ k q r. absurd (omega arith);
  behind = λ k q. absurd (omega arith);
  held = λ k q r. absurd (omega arith);
  alone = λ j k q r. absurd (omega arith);
  launched_phase = λ k q. absurd (omega arith);
  current = inr (inr (inr (inr refl)), refl);
  unskipped = λ k q. refl;
}

pub put_same : {A : Type 0} (f : ℕ → A) (k j : ℕ) (a : A) → k ≡ j → put f k a j ≡ a
put_same f k j a e = let t : (k == j) ≡ true = ==_refl _ _ e in rw t refl

pub put_other : {A : Type 0} (f : ℕ → A) (k j : ℕ) (a : A) → k ≢ j → put f k a j ≡ f j
put_other f k j a e = let t : (k == j) ≡ false = ground arith in rw t refl

-- A later block does not matter to those before it.
pub unlost-put :
    (f : ℕ → Bool) (k : ℕ) (b : Bool) (m : ℕ) → m ≤ k → unlost (put f k b) m ≡ unlost f m
unlost-put f k b zero h = refl
unlost-put f k b (suc m) h =
    rw (put_other f k m b (omega arith), unlost-put f k b m (omega arith)) refl

-- A thread that is not gone was not gone before.
still_there : (f : ℕ → Phase) (k j : ℕ) (p : Phase) → f k ≢ gone → put f k p j ≢ gone → f j ≢ gone
still_there f k j p here h e = elim (Bool-cases (k == j)) [
  | inl same ↦ here (ap f (ground arith) ∙ e)
  | inr other ↦ h (put_other f k j p (ground arith) ∙ e)
]

module _ {n : ℕ} {s : Threads} {turn : ℕ} (v : Inv n s turn) where
  -- A thread at its place in front of the turn is the turn's.
  pub whose : (k : ℕ) → k < s.launched → turn ≤ k → s.output_thread ≡ s.index k → k ≡ turn
  whose k lt ge e = elim (Bool-cases (k == turn)) [
    | inl same ↦ ground arith
    | inr other ↦ absurd (
        mod_distinct n turn k (ground arith) (omega (arith, v.room))
          (sym v.output ∙ e ∙ v.index k lt))
  ]

  -- A thread that compresses, waits or fails is launched, and not before the turn.
  pub active :
      (k : ℕ)
      → (s.phase k ≡ compressing) ⊎ (s.phase k ≡ waiting) ⊎ (s.phase k ≡ failing)
      → (k < s.launched) × (turn ≤ k)
  active k h = elim (Bool-cases (ltb k turn)) [
    | inl past ↦ elim (v.behind k (ground arith)) [
      | inl e ↦ elim h [
        | inl a ↦ absurd (cc)
        | inr (inl a) ↦ absurd (cc)
        | inr (inr a) ↦ absurd (cc)
      ]
      | inr e ↦ elim h [
        | inl a ↦ absurd (cc)
        | inr (inl a) ↦ absurd (cc)
        | inr (inr a) ↦ absurd (cc)
      ]
    ]
    | inr ge ↦ elim (Bool-cases (ltb k s.launched)) [
      | inl lt ↦ (ground arith, ground arith)
      | inr above ↦
          let e = v.fresh k (ground arith) in
          elim h [ inl a ↦ absurd (cc) | inr (inl a) ↦ absurd (cc) | inr (inr a) ↦ absurd (cc) ]
    ]
  ]

  -- The turn's block, not yet written, is the next one.
  pub not_yet :
      (k : ℕ)
      → k ≡ turn
      → (s.phase turn ≡ waiting) ⊎ (s.phase turn ≡ failing)
      → s.written ≡ unlost s.skipped turn
  not_yet k e w = elim v.current [
    | inl (lt, p, q) ↦ elim w [ inl x ↦ absurd (cc) | inr x ↦ absurd (cc) ]
    | inr (p, q) ↦ q
  ]

  -- The parts of the invariant that a phase between `compressing` and `released` keeps.
  module _ (k : ℕ) (p : Phase) (here : s.phase k ≢ gone) where
    pub held_kept : (j : ℕ) → j < s.launched → put s.phase k p j ≢ gone → s.cksem (j % n) ≡ false
    held_kept j q r = v.held j q (still_there s.phase k j p here r)

    pub alone_kept :
        (i j : ℕ)
        → i < j
        → j < s.launched
        → put s.phase k p i ≢ gone
        → put s.phase k p j ≢ gone
        → i % n ≢ j % n
    alone_kept i j q r a b =
        v.alone i j q r (still_there s.phase k i p here a) (still_there s.phase k j p here b)

    pub fresh_kept : k < s.launched → (j : ℕ) → s.launched ≤ j → put s.phase k p j ≡ unlaunched
    fresh_kept lt j q = put_other s.phase k j p (omega arith) ∙ v.fresh j q

  pub still_launched :
      (k : ℕ) (p : Phase)
      → p ≢ unlaunched
      → (j : ℕ) → j < s.launched
      → put s.phase k p j ≢ unlaunched
  still_launched k p d j q e = elim (Bool-cases (k == j)) [
    | inl same ↦ d (sym (put_same s.phase k j p (ground arith)) ∙ e)
    | inr other ↦ v.launched_phase j q (sym (put_other s.phase k j p (ground arith)) ∙ e)
  ]

  -- On to the wait, or to a failure.
  pub moves-Inv :
      (k : ℕ) (p : Phase)
      → (s.phase k ≡ compressing) ⊎ (s.phase k ≡ waiting)
      → (p ≡ waiting) ⊎ (p ≡ failing)
      → Inv n (record s { phase = put s.phase k p }) turn
  moves-Inv k p c to =
      let (lt, ge) = active k (elim c [ inl a ↦ inl a | inr a ↦ inr (inl a) ]) in
      let here : s.phase k ≢ gone = λ e. elim c [ inl a ↦ absurd (cc) | inr a ↦ absurd (cc) ] in
      record {
        some_threads = v.some_threads;
        output = v.output;
        next = v.next;
        index = v.index;
        past = v.past;
        room = v.room;
        fresh = fresh_kept k p here lt;
        ahead = λ j q r. elim (Bool-cases (k == j)) [
          | inl e ↦ inr (elim to [
            | inl a ↦ inl (put_same s.phase k j p (ground arith) ∙ a)
            | inr a ↦ inr (put_same s.phase k j p (ground arith) ∙ a)
          ])
          | inr e ↦ rw (put_other s.phase k j p (ground arith)) (v.ahead j q r)
        ];
        behind = λ j q. rw (put_other s.phase k j p (omega arith)) (v.behind j q);
        launched_phase =
            still_launched k p (λ e. elim to [ inl a ↦ absurd (cc) | inr a ↦ absurd (cc) ]);
        held = held_kept k p here;
        alone = alone_kept k p here;
        unskipped = v.unskipped;
        current = elim (Bool-cases (k == turn)) [
          | inl e ↦ elim v.current [
            | inl (a, b, w) ↦ let f : k ≡ turn = ground arith in absurd (clash (ap s.phase f) c b)
            | inr (b, w) ↦ inr (
              elim to [
                | inl a ↦ inr (inl (put_same s.phase k turn p (ground arith) ∙ a))
                | inr a ↦ inr (inr (inl (put_same s.phase k turn p (ground arith) ∙ a)))
              ],
              w,
            )
          ]
          | inr e ↦ rw (put_other s.phase k turn p (ground arith)) v.current
        ];
      }
    where
      clash :
          s.phase k ≡ s.phase turn
          → (s.phase k ≡ compressing) ⊎ (s.phase k ≡ waiting)
          → s.phase turn ≢ written_out
      clash e (inl a) b = cc
      clash e (inr a) b = cc

  -- A block that is not passed over is one more.
  kept_block :
      s.skipped turn ≡ false → unlost s.skipped (suc turn) ≡ unlost s.skipped turn ++ (turn ∷ [])
  kept_block e = rw e refl

  pub write-Inv :
      (k : ℕ)
      → s.phase k ≡ waiting
      → s.output_thread ≡ s.index k
      → Inv n (record s { phase = put s.phase k written_out; written = s.written ++ (k ∷ []) }) turn
  write-Inv k c mine =
      let (lt, ge) = active k (inr (inl c)) in
      let e = whose k lt ge mine in
      let here : s.phase k ≢ gone = λ q. absurd (cc) in
      record {
        some_threads = v.some_threads;
        output = v.output;
        next = v.next;
        index = v.index;
        past = v.past;
        room = v.room;
        fresh = fresh_kept k written_out here lt;
        ahead = λ j q r. rw (put_other s.phase k j written_out (omega arith)) (v.ahead j q r);
        behind = λ j q. rw (put_other s.phase k j written_out (omega arith)) (v.behind j q);
        launched_phase = still_launched k written_out (λ e. cc);
        held = held_kept k written_out here;
        alone = alone_kept k written_out here;
        current = inl (
          omega arith,
          put_same s.phase k turn written_out e,
          ap₂ ◌++◌ (not_yet k e (inl (ap s.phase (sym e) ∙ c))) (ap (λ t. t ∷ []) e)
              ∙ sym (kept_block (v.unskipped turn (omega arith))),
        );
        unskipped = v.unskipped;
      }
