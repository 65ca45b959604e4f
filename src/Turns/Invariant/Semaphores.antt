-- ===== src/Turns/Invariant/Semaphores.antt =====
-- The steps around a semaphore keep the invariant: `cksem_post` and the launch of a thread.
use lrzip.Common.{
  ℕ, suc, ◌+◌, ◌%◌, ◌≤◌, ◌<◌, ◌≡◌, ◌≢◌, sym, ap, ◌∙◌, arith, true, false, ◌==◌, Bool-cases, inl,
  inr, ltb,
}
use native.Mathlib.Nat.{add-mod_right}
use lrzip.Turns.{compressing, released, gone, Threads, put, next_thread}
use lrzip.Turns.Invariant.{Inv, next_thread_mod}
use lrzip.Turns.Invariant.Steps.{put_same, put_other, still_launched}
use lrzip.Turns.Invariant.Passing.{turn_here}

module _ {n : ℕ} {s : Threads} {turn : ℕ} (v : Inv n s turn) where
  -- A block that is released has had its turn.
  had_turn : (k : ℕ) → s.phase k ≡ released → k < turn
  had_turn k c = elim (Bool-cases (ltb k turn)) [
    | inl past ↦ ground arith
    | inr ge ↦ elim (Bool-cases (ltb k s.launched)) [
      | inl lt ↦ elim (Bool-cases (k == turn)) [
        | inl same ↦
            let e : s.phase turn ≡ released = ap s.phase (ground arith) ∙ c in
            elim v.current [
              | inl (a, b, w) ↦ absurd (cc)
              | inr (inl a, w) ↦ absurd (cc)
              | inr (inr (inl a), w) ↦ absurd (cc)
              | inr (inr (inr (inl a)), w) ↦ absurd (cc)
              | inr (inr (inr (inr a)), w) ↦ absurd (cc)
            ]
        | inr other ↦ elim (v.ahead k (ground arith) (ground arith)) [
          | inl e ↦ absurd (cc)
          | inr (inl e) ↦ absurd (cc)
          | inr (inr e) ↦ absurd (cc)
        ]
      ]
      | inr above ↦ let e = v.fresh k (ground arith) in absurd (cc)
    ]
  ]

  -- Two threads that are not gone have different semaphores.
  apart :
      (j k : ℕ)
      → j ≢ k
      → j < s.launched
      → k < s.launched
      → s.phase j ≢ gone
      → s.phase k ≢ gone
      → j % n ≢ k % n
  apart j k d lj lk a b = elim (Bool-cases (ltb j k)) [
    | inl less ↦ v.alone j k (ground arith) lk a b
    | inr more ↦ λ e. v.alone k j (ground arith) lj b a (sym e)
  ]

  gone_before : (k j : ℕ) → put s.phase k gone j ≢ gone → (k ≢ j) × (s.phase j ≢ gone)
  gone_before k j h = elim (Bool-cases (k == j)) [
    | inl same ↦ absurd (h (put_same s.phase k j gone (ground arith)))
    | inr other ↦ (ground arith, λ e. h (put_other s.phase k j gone (ground arith) ∙ e))
  ]

  pub post-Inv :
      (k : ℕ)
      → s.phase k ≡ released
      → Inv n (record s { phase = put s.phase k gone; cksem = put s.cksem (s.index k) true }) turn
  post-Inv k c =
      let past = had_turn k c in
      let lt : k < s.launched = omega (arith, v.past) in
      let here : s.phase k ≢ gone = λ q. absurd (cc) in
      record {
        some_threads = v.some_threads;
        output = v.output;
        next = v.next;
        index = v.index;
        past = v.past;
        room = v.room;
        fresh = λ j q. put_other s.phase k j gone (omega arith) ∙ v.fresh j q;
        ahead = λ j q r. rw (put_other s.phase k j gone (omega arith)) (v.ahead j q r);
        behind = λ j q. elim (Bool-cases (k == j)) [
          | inl same ↦ inr (put_same s.phase k j gone (ground arith))
          | inr other ↦ rw (put_other s.phase k j gone (ground arith)) (v.behind j q)
        ];
        launched_phase = still_launched v k gone (λ e. cc);
        held = λ j q r.
            let (d, a) = gone_before k j r in
            put_other s.cksem (s.index k) (j % n) true
              (λ e. apart k j d lt q here a (sym (v.index k lt) ∙ e))
            ∙ v.held j q a;
        alone = λ i j q r a b. v.alone i j q r (gone_before k i a).1 (gone_before k j b).1;
        current = rw (put_other s.phase k turn gone (omega arith)) v.current;
        unskipped = v.unskipped;
      }

  module _ (free : s.cksem s.next ≡ true) where
    -- The semaphore that is free is no thread's that is still there.
    not_taken : (j : ℕ) → j < s.launched → s.phase j ≢ gone → j % n ≢ s.launched % n
    not_taken j lt a e =
        let q : s.cksem s.next ≡ false = ap s.cksem (v.next ∙ sym e) ∙ v.held j lt a in cc

    room_left : suc s.launched ≤ turn + n
    room_left = elim (Bool-cases (s.launched == turn + n)) [
      | inl full ↦
          let e : s.launched ≡ turn + n = ground arith in
          absurd (
            not_taken turn (omega (arith, v.some_threads)) (turn_here v)
              (sym (ap (λ t. t % n) e ∙ add-mod_right turn n)))
      | inr less ↦ ground (arith, v.room)
    ]

    launched_there :
        (j : ℕ) → j ≢ s.launched → put s.phase s.launched compressing j ≢ gone → s.phase j ≢ gone
    launched_there j d h e = h (put_other s.phase s.launched j compressing (λ q. d (sym q)) ∙ e)

    pub launch-Inv :
        Inv n
          (record s {
            launched = suc s.launched;
            next = next_thread n s.next;
            cksem = put s.cksem s.next false;
            index = put s.index s.launched s.next;
            phase = put s.phase s.launched compressing;
          })
          turn
    launch-Inv = record {
      some_threads = v.some_threads;
      output = v.output;
      next = ap (next_thread n) v.next ∙ next_thread_mod n s.launched v.some_threads;
      index = λ k q. elim (Bool-cases (s.launched == k)) [
        | inl e ↦
            put_same s.index s.launched k s.next (ground arith)
            ∙ v.next
            ∙ ap (λ t. t % n) (ground arith)
        | inr e ↦ put_other s.index s.launched k s.next (ground arith) ∙ v.index k (ground arith)
      ];
      past = omega (arith, v.past);
      room = room_left;
      fresh =
          λ j q. put_other s.phase s.launched j compressing (omega arith) ∙ v.fresh j (omega arith);
      ahead = λ j q r. elim (Bool-cases (s.launched == j)) [
        | inl e ↦ inl (put_same s.phase s.launched j compressing (ground arith))
        | inr e ↦
            rw (put_other s.phase s.launched j compressing (ground arith))
              (v.ahead j q (ground arith))
      ];
      behind = λ j q.
          rw (put_other s.phase s.launched j compressing (omega (arith, v.past))) (v.behind j q);
      launched_phase = λ k q. elim (Bool-cases (s.launched == k)) [
        | inl e ↦ λ w. let p = put_same s.phase s.launched k compressing (ground arith) in cc
        | inr e ↦ λ w.
            v.launched_phase k (ground arith)
              (sym (put_other s.phase s.launched k compressing (ground arith)) ∙ w)
      ];
      held = λ j q r. elim (Bool-cases (s.next == j % n)) [
        | inl e ↦ put_same s.cksem s.next (j % n) false (ground arith)
        | inr e ↦
            let d : j ≢ s.launched = λ w. absurd (other j e w) in
            put_other s.cksem s.next (j % n) false (ground arith)
            ∙ v.held j (omega arith) (launched_there j d r)
      ];
      alone = λ i j q r a b. elim (Bool-cases (s.launched == j)) [
        | inl e ↦
            let f : j ≡ s.launched = ground arith in
            λ w.
              not_taken i (omega arith) (launched_there i (omega arith) a) (w ∙ ap (λ t. t % n) f)
        | inr e ↦
            v.alone i j q (ground arith) (launched_there i (ground arith) a)
              (launched_there j (ground arith) b)
      ];
      unskipped = v.unskipped;
      current = elim (Bool-cases (s.launched == turn)) [
        | inl e ↦ elim v.current [
          | inl (a, b, w) ↦ absurd (ground arith)
          | inr (b, w) ↦ inr (inl (put_same s.phase s.launched turn compressing (ground arith)), w)
        ]
        | inr e ↦
            rw (put_other s.phase s.launched turn compressing (ground arith))
              (elim v.current [ inl (a, b, w) ↦ inl (omega arith, b, w) | inr w ↦ inr w ])
      ];
    }
      where
        other : (j : ℕ) → (s.next == j % n) ≡ false → j ≢ s.launched
        other j e w = let t : s.next ≡ j % n = v.next ∙ ap (λ q. q % n) (sym w) in ground arith
