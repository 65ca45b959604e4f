-- ===== src/Backend/Filter/Trial.antt =====
-- filters.c, `lrz_filter_trial` and `lrz_stream_filter_pick`: a sample is compressed plain and with
-- each filter, and the filter that gains most is chosen if it gains enough.
use lrzip.Common.{
  ℕ, zero, suc, ◌+◌, ◌-◌, ◌/◌, ◌%◌, ◌^◌, ◌≤◌, ◌<◌, ◌≡◌, refl, sym, ap, ◌∙◌, ◌==◌, ◌⊎◌, min, arith,
  true, false, not, ◌||◌, Option, none, some, List, length, take, drop, ltb, if◌then◌else◌,
  Bool-cases, inl, inr,
}
use lrzip.Backend.Types.{
  Libs, Malloc, LzmaRet, sz_ok, sz_error_output_eof, FilterMode, off, fixed, auto, lrz_filter_none,
  lrz_filter_x86, lrz_filter_max,
}
use lrzip.Backend.Filter.{filter_convert_mem}

-- `best` and `best_len`
pub record TrialBest : Type 0 where
  pub kind : ℕ
  pub len : ℕ

-- The call of `LzmaCompress` on a sample: level 1, a dictionary of 1 MiB, one thread.
abbrev pub sample_compress : Libs → List ℕ → LzmaRet
sample_compress l sample = l.lzma_compress 1 (2 ^ 20) none 1 (length sample) sample

-- The length, unless `LzmaCompress` fails: a filter whose trial fails is passed over.
abbrev pub trial_len : LzmaRet → Option ℕ
trial_len (sz_ok bytes props) = some (length bytes)
trial_len other = none

abbrev pub keep_smaller : ℕ → TrialBest → Option ℕ → TrialBest
keep_smaller i best none = best
keep_smaller i best (some len) = if ltb len best.len then record { kind = i; len = len } else best

-- The sample through filter `i`.
unfoldable pub trial : Libs → List ℕ → ℕ → Option ℕ
trial l pristine i = trial_len (sample_compress l (filter_convert_mem l i true pristine))

-- The loop over the filters from `i`, `n` of them.
unfoldable pub trial_loop : Libs → List ℕ → ℕ → ℕ → TrialBest → TrialBest
trial_loop l pristine zero i best = best
trial_loop l pristine (suc n) i best =
    trial_loop l pristine n (suc i) (keep_smaller i best (trial l pristine i))

-- The length that the plain sample compresses to, unless `LzmaCompress` fails.
abbrev pub plain_len : LzmaRet → Option ℕ
plain_len (sz_ok bytes props) = some (length bytes)
plain_len (sz_error_output_eof len) = some len
plain_len other = none

abbrev pub trial_from : Libs → List ℕ → Option ℕ → ℕ
trial_from l pristine none = lrz_filter_none
trial_from l pristine (some plain) =
    (trial_loop l pristine lrz_filter_max lrz_filter_x86
      (record { kind = lrz_filter_none; len = plain - plain / 64 })).kind

-- The bytes from the middle, from a multiple of four on.
unfoldable pub sample_of : List ℕ → List ℕ
sample_of area =
    let sample = min (length area) (2 ^ 21) in
    let ofs = (length area - sample) / 2 in take sample (drop (ofs - ofs % 4) area)

unfoldable pub filter_trial : Libs → Malloc → List ℕ → ℕ
filter_trial l malloc area =
    if ltb (length area) (2 ^ 20) || not (malloc (min (length area) (2 ^ 21)))
    then lrz_filter_none
    else trial_from l (sample_of area) (plain_len (sample_compress l (sample_of area)))

unfoldable pub stream_filter_pick : Libs → Malloc → FilterMode → List ℕ → ℕ
stream_filter_pick l malloc off buf = lrz_filter_none
stream_filter_pick l malloc (fixed kind) buf = kind
stream_filter_pick l malloc auto buf = filter_trial l malloc buf

-- What the loop has found: a filter that it tried and the length that it gave, or what it began
-- with; and no filter that it tried gave less.
pub record IsBest (l : Libs) (pristine : List ℕ) (first n : ℕ) (start best : TrialBest)
    : Type 0 where
  pub found :
      (best ≡ start)
      ⊎ ((first ≤ best.kind)
          × (best.kind < first + n)
          × (best.len < start.len)
          × (trial l pristine best.kind ≡ some best.len))
  pub least :
      (k len : ℕ) → first ≤ k → k < first + n → trial l pristine k ≡ some len → best.len ≤ len
  pub bounded : best.len ≤ start.len

module _ {l : Libs} {pristine : List ℕ} {first n : ℕ} {start best : TrialBest} where
  widened :
      IsBest l pristine first n start best
      → (best ≡ start)
        ⊎ ((first ≤ best.kind)
            × (best.kind < first + suc n)
            × (best.len < start.len)
            × (trial l pristine best.kind ≡ some best.len))
  widened b = elim b.found [
    | inl e ↦ inl e
    | inr (lo, hi, less, e) ↦ inr (lo, omega arith, less, e)
  ]

  least-suc :
      (b : IsBest l pristine first n start best) (t : Option ℕ) (bound : ℕ)
      → trial l pristine (first + n) ≡ t
      → bound ≤ best.len
      → ((len : ℕ) → t ≡ some len → bound ≤ len)
      → (k len : ℕ) → first ≤ k
      → k < first + suc n
      → trial l pristine k ≡ some len
      → bound ≤ len
  least-suc b t bound e lower last k len lo hi et = elim (Bool-cases (k == first + n)) [
    | inl same ↦
        let f : k ≡ first + n = ground arith in
        last len (sym e ∙ sym (ap (trial l pristine) f) ∙ et)
    | inr other ↦ omega (arith, b.least k len lo (ground arith) et)
  ]

  keep_smaller-IsBest :
      (t : Option ℕ)
      → trial l pristine (first + n) ≡ t
      → IsBest l pristine first n start best
      → IsBest l pristine first (suc n) start (keep_smaller (first + n) best t)
  keep_smaller-IsBest none e b = record {
    found = widened b;
    least = least-suc b none best.len e (omega arith) (λ len q. absurd (cc));
    bounded = b.bounded;
  }
  keep_smaller-IsBest (some c) e b = elim (Bool-cases (ltb c best.len)) [
    | inl less ↦ rw less (record {
      found = inr (omega arith, omega arith, ground (arith, b.bounded), e);
      least = least-suc b (some c) c e (ground arith) (λ len q. ground arith);
      bounded = ground (arith, b.bounded);
    })
    | inr less ↦ rw less (record {
      found = widened b;
      least = least-suc b (some c) best.len e (omega arith) (λ len q. ground arith);
      bounded = b.bounded;
    })
  ]

-- The loop keeps the best of the filters that it has tried.
pub trial_loop-IsBest :
    (l : Libs) (pristine : List ℕ) (first m n : ℕ) (start best : TrialBest)
    → IsBest l pristine first m start best
    → IsBest l pristine first (m + n) start (trial_loop l pristine n (first + m) best)
unfolding trial_loop
trial_loop-IsBest l pristine first m zero start best b = let e : m + 0 ≡ m = omega arith in rw e b
trial_loop-IsBest l pristine first m (suc n) start best b =
    let e : m + suc n ≡ suc m + n = omega arith in
    let f : suc (first + m) ≡ first + suc m = omega arith in
    rw (e, f)
      (trial_loop-IsBest l pristine first (suc m) n start _
        (keep_smaller-IsBest (trial l pristine (first + m)) refl b))

-- For a block of 1 MiB at least, memory for the sample and a trial of the plain sample that
-- succeeds, the filter that `filter_trial` picks makes the sample smaller than 63/64 of the plain
-- trial's length and no larger than any other filter does, or it picks none and no filter makes
-- the sample smaller than that.
pub filter_trial-IsBest :
    (l : Libs) (malloc : Malloc) (area : List ℕ) (plain : ℕ)
    → 2 ^ 20 ≤ length area
    → malloc (min (length area) (2 ^ 21)) ≡ true
    → plain_len (sample_compress l (sample_of area)) ≡ some plain
    → (best : TrialBest) × (filter_trial l malloc area ≡ best.kind)
      × IsBest l
          (sample_of area)
          lrz_filter_x86
          lrz_filter_max
          (record { kind = lrz_filter_none; len = plain - plain / 64 })
          best
unfolding filter_trial
filter_trial-IsBest l malloc area plain large granted e =
    let t : ltb (length area) (2 ^ 20) ≡ false = ground arith in
    rw (t, granted, e)
      (
        trial_loop l (sample_of area) lrz_filter_max lrz_filter_x86 start,
        refl,
        trial_loop-IsBest l (sample_of area) lrz_filter_x86 0 lrz_filter_max start start (record {
          found = inl refl;
          least = λ k len lo hi. absurd (omega arith);
          bounded = omega arith;
        }),
      )
  where
    start : TrialBest
    start = record { kind = lrz_filter_none; len = plain - plain / 64 }

trial_from_bounded :
    (l : Libs) (pristine : List ℕ) (plain : Option ℕ) → trial_from l pristine plain ≤ lrz_filter_max
trial_from_bounded l pristine none = omega arith
trial_from_bounded l pristine (some plain) = bounded (
    trial_loop-IsBest l pristine lrz_filter_x86 0 lrz_filter_max start start (record {
      found = inl refl;
      least = λ k len lo hi. absurd (omega arith);
      bounded = omega arith;
    }))
  where
    start : TrialBest
    start = record { kind = lrz_filter_none; len = plain - plain / 64 }

    bounded :
        {best : TrialBest}
        → IsBest l pristine lrz_filter_x86 lrz_filter_max start best
        → best.kind ≤ lrz_filter_max
    bounded b = elim b.found [
      | inl e ↦ omega (arith, ap (λ t. t.kind) e)
      | inr (lo, hi, less, e) ↦ omega arith
    ]

pub filter_trial_bounded :
    (l : Libs) (malloc : Malloc) (area : List ℕ) → filter_trial l malloc area ≤ lrz_filter_max
unfolding filter_trial
filter_trial_bounded l malloc area =
    ground (
      arith,
      trial_from_bounded l (sample_of area) (plain_len (sample_compress l (sample_of area))),
    )
