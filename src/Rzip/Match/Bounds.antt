-- ===== src/Rzip/Match/Bounds.antt =====
-- What `match_len` returns is a match: it lies between the last one and `end`, reaches back before
-- its own position, and agrees byte by byte.
use lrzip.Common.{
  ℕ, zero, suc, ◌+◌, ◌-◌, ◌≤◌, ◌<◌, min, ◌≡◌, ◌≢◌, sym, arith, ltb, leb, ◌==◌, true, false, ◌&&◌,
  ◌||◌, Bool, Bool-cases, inl, inr, ==_iff,
}
use lrzip.Rzip.Match.{
  minimum_match, word_bytes, same_bytes, forward_words, forward_bytes, forward, backward, match_len,
}

&&-left : (a b : Bool) → (a && b) ≡ true → a ≡ true
&&-left a b h = ground arith

&&-right : (a b : Bool) → (a && b) ≡ true → b ≡ true
&&-right a b h = ground arith

module _ (base : ℕ → ℕ) where
  -- The first `n` bytes from both positions on agree.
  abbrev pub Agree : ℕ → ℕ → ℕ → Type 0
  Agree i j n = (k : ℕ) → k < n → base (i + k) ≡ base (j + k)

  same_bytes-Agree : (n i j : ℕ) → same_bytes base n i j ≡ true → Agree i j n
  unfolding same_bytes
  same_bytes-Agree zero i j h k hk = absurd (omega arith)
  same_bytes-Agree (suc n) i j h zero hk =
      let e : i + 0 ≡ i = omega arith in
      let f : j + 0 ≡ j = omega arith in rw (e, f) ((==_iff _ _).0 (&&-left _ _ h))
  same_bytes-Agree (suc n) i j h (suc k) hk =
      let e : i + suc k ≡ i + 1 + k = omega arith in
      let f : j + suc k ≡ j + 1 + k = omega arith in
      rw (e, f) (same_bytes-Agree n (i + 1) (j + 1) (&&-right _ _ h) k (omega arith))

  Agree-append : (i j m n : ℕ) → Agree i j m → Agree (i + m) (j + m) n → Agree i j (m + n)
  Agree-append i j m n h g k hk = elim (Bool-cases (ltb k m)) [
    | inl lt ↦ h k (ground arith)
    | inr ge ↦
        let e : i + k ≡ i + m + (k - m) = ground arith in
        let f : j + k ≡ j + m + (k - m) = ground arith in rw (e, f) (g (k - m) (ground arith))
  ]

  Agree-one : (i j : ℕ) → base i ≡ base j → Agree i j 1
  Agree-one i j h k hk =
      let e : i + k ≡ i = omega arith in let f : j + k ≡ j = omega arith in rw (e, f) h

  -- What the forward loops keep.
  record Forward (p op max_fwd f : ℕ) : Type 0 where
    within : f ≤ max_fwd
    agree : Agree p op f

  forward_words-Forward :
      (fuel p op max_fwd f : ℕ)
      → Forward p op max_fwd f
      → Forward p op max_fwd (forward_words base fuel p op max_fwd f)
  unfolding forward_words
  forward_words-Forward zero p op max_fwd f h = h
  forward_words-Forward (suc fuel) p op max_fwd f h =
      elim (Bool-cases
        (leb (f + word_bytes) max_fwd && same_bytes base word_bytes (p + f) (op + f))) [
          | inl e ↦ rw e (
              forward_words-Forward fuel p op max_fwd (f + word_bytes) (record {
                within = ground arith;
                agree =
                    Agree-append p op f word_bytes h.agree
                      (same_bytes-Agree word_bytes _ _ (&&-right _ _ e));
              }))
          | inr e ↦ rw e h
        ]

  forward_bytes-Forward :
      (fuel p op max_fwd f : ℕ)
      → Forward p op max_fwd f
      → Forward p op max_fwd (forward_bytes base fuel p op max_fwd f)
  unfolding forward_bytes
  forward_bytes-Forward zero p op max_fwd f h = h
  forward_bytes-Forward (suc fuel) p op max_fwd f h =
      elim (Bool-cases (ltb f max_fwd && base (p + f) == base (op + f))) [
        | inl e ↦ rw e (
            forward_bytes-Forward fuel p op max_fwd (f + 1) (record {
              within = ground arith;
              agree =
                  Agree-append p op f 1 h.agree (Agree-one _ _ ((==_iff _ _).0 (&&-right _ _ e)));
            }))
        | inr e ↦ rw e h
      ]

  forward-Forward : (p op max_fwd : ℕ) → Forward p op max_fwd (forward base p op max_fwd)
  unfolding forward
  forward-Forward p op max_fwd = forward_bytes-Forward max_fwd p op max_fwd _ (
      forward_words-Forward max_fwd p op max_fwd 0
        (record { within = omega arith; agree = λ k hk. absurd (omega arith) }))

  -- What the backward loop keeps.
  record Backward (p op rev_end r : ℕ) : Type 0 where
    behind : rev_end + r ≤ p
    inside : r ≤ op
    agree : Agree (p - r) (op - r) r

  backward-Backward :
      (fuel p op rev_end r : ℕ)
      → Backward p op rev_end r
      → Backward p op rev_end (backward base fuel p op rev_end r)
  unfolding backward
  backward-Backward zero p op rev_end r h = h
  backward-Backward (suc fuel) p op rev_end r h = elim (Bool-cases test) [
    | inl e ↦ rw e (backward-Backward fuel p op rev_end (r + 1) (step e))
    | inr e ↦ rw e h
  ]
    where
      test : Bool
      test = ltb rev_end (p - r) && ltb 0 (op - r) && base (op - r - 1) == base (p - r - 1)

      step : test ≡ true → Backward p op rev_end (r + 1)
      step e = record {
        behind = ground arith;
        inside = ground arith;
        agree =
            let a : p - (r + 1) + 1 ≡ p - r = ground arith in
            let b : op - (r + 1) + 1 ≡ op - r = ground arith in
            let l : 1 + r ≡ r + 1 = omega arith in
            rw l at (
              Agree-append (p - (r + 1)) (op - (r + 1)) 1 r (Agree-one _ _ before)
                (rw (a, b) h.agree));
      }
        where
          before : base (p - (r + 1)) ≡ base (op - (r + 1))
          before =
              let a : p - (r + 1) ≡ p - r - 1 = omega arith in
              let b : op - (r + 1) ≡ op - r - 1 = omega arith in
              rw (a, b) (sym ((==_iff _ _).0 (ground arith)))

  -- What a match of length `len` and reverse extent `rev` promises.
  pub record IsMatch (last_match p0 op end best len rev : ℕ) : Type 0 where
    pub long : minimum_match ≤ len
    pub better : best < len
    pub earlier : op < p0
    pub rev_source : rev ≤ op
    pub rev_target : last_match + rev ≤ p0
    pub inside : p0 - rev + len ≤ end
    pub reaches : p0 ≤ p0 - rev + len
    pub agree : Agree (p0 - rev) (op - rev) len

  -- The two extents found make a match, if they pass the tests.
  extents-IsMatch :
      (last_match p0 op end best f rev : ℕ)
      → p0 ≤ end
      → op < p0
      → Forward p0 op (end - p0) f
      → Backward p0 op last_match rev
      → (ltb (f + rev) minimum_match || leb (f + rev) best) ≡ false
      → IsMatch last_match p0 op end best (f + rev) rev
  extents-IsMatch last_match p0 op end best f rev he hop fw bw t = record {
    long = ground arith;
    better = ground arith;
    earlier = hop;
    rev_source = bw.inside;
    rev_target = bw.behind;
    inside = omega (arith, fw.within, bw.behind);
    reaches = omega (arith, bw.behind);
    agree =
        let a : p0 - rev + rev ≡ p0 = omega (arith, bw.behind) in
        let b : op - rev + rev ≡ op = omega (arith, bw.inside) in
        let l : rev + f ≡ f + rev = omega arith in
        rw l at (Agree-append (p0 - rev) (op - rev) rev f bw.agree (rw (a, b) fw.agree));
  }

  -- Where the last match ends at or before `p0`, and `p0` is not behind `end`, a length of
  -- `match_len` that is not 0 is long enough, better than `best`, of an earlier position, in
  -- bounds on both sides, and the bytes there agree.
  pub match_len-IsMatch :
      (last_match p0 op end best : ℕ)
      → last_match ≤ p0
      → p0 ≤ end
      → (match_len base last_match p0 op end best).0 ≢ 0
      → IsMatch last_match p0 op end best
          (match_len base last_match p0 op end best).0
          (match_len base last_match p0 op end best).1
  unfolding match_len
  match_len-IsMatch last_match p0 op end best hl he ne = elim (Bool-cases (leb p0 op)) [
    | inl e ↦ absurd (ne (rw e))
    | inr e ↦ elim (Bool-cases (ltb (f + max_rev) minimum_match || leb (f + max_rev) best)) [
      | inl e' ↦ absurd (ne (rw (e, e')))
      | inr e' ↦ elim (Bool-cases (ltb (f + rev) minimum_match || leb (f + rev) best)) [
        | inl e'' ↦ absurd (ne (rw (e, e', e'')))
        | inr e'' ↦
            rw (e, e', e'')
              (extents-IsMatch last_match p0 op end best f rev he (ground arith)
                (forward-Forward p0 op (end - p0)) back e'')
      ]
    ]
  ]
    where
      f : ℕ
      f = forward base p0 op (end - p0)

      max_rev : ℕ
      max_rev = min (p0 - last_match) op

      rev : ℕ
      rev = backward base p0 p0 op last_match 0

      back : Backward p0 op last_match rev
      back = backward-Backward p0 p0 op last_match 0 (record {
        behind = omega arith;
        inside = omega arith;
        agree = λ k hk. absurd (omega arith);
      })
