-- ===== src/Backend/Lz4.antt =====
-- stream.c, `lz4_compresses`: whether the job's first block is worth compressing, once for all.
use lrzip.Common.{
  ℕ, zero, suc, ◌+◌, ◌*◌, ◌/◌, ◌^◌, ◌<◌, ◌≡◌, ap, min, arith, Bool, true, false, not, ◌&&◌, List,
  length, take, ltb, leb, ◌==◌, if◌then◌else◌, Bool-cases, inl, inr,
}
use native.Mathlib.Nat.{pow-suc}
use lrzip.Backend.Types.{Libs, Malloc, Settings, SharedControl}

abbrev pub stream_bufsize : ℕ
stream_bufsize = 1024 * 1024 * 10

-- A pass: 0 says that the result is longer than the buffer.
unfoldable pub lz4_shrinks : Libs → ℕ → List ℕ → ℕ → Bool
lz4_shrinks l dlen s_buf test_len =
    let lz4_ret = l.lz4_compress dlen (take test_len s_buf) in
    not (lz4_ret == 0) && ltb lz4_ret test_len

-- The loop `do … while (test_len <= dlen)`.
unfoldable pub lz4_loop : ℕ → Libs → ℕ → List ℕ → ℕ → Bool
lz4_loop zero l dlen s_buf test_len = false
lz4_loop (suc fuel) l dlen s_buf test_len =
    let rest = lz4_loop fuel l dlen s_buf (test_len * 2) in
    if lz4_shrinks l dlen s_buf test_len
    then true
    else if leb (test_len * 2) dlen
    then rest
    else false

-- Nine passes are enough: the first takes the whole buffer, or 1/256 of the largest.
abbrev pub passes : ℕ
passes = 9

unfoldable pub lz4_test : Libs → List ℕ → Bool
lz4_test l s_buf =
    let dlen = min (length s_buf) stream_bufsize in
    lz4_loop passes l dlen s_buf (min dlen (stream_bufsize / 256))

-- The result, and what the threads share afterwards.
unfoldable pub lz4_compresses :
    Libs → Malloc → Settings → SharedControl → List ℕ → Bool × SharedControl
lz4_compresses l malloc s c s_buf =
    if not s.lz4_test
    then (true, c)
    else if c.lz4_test_done
    then (c.lz4_compressible, c)
    else if not (malloc (min (length s_buf) stream_bufsize))
    then (false, c)
    else (lz4_test l s_buf, record c { lz4_compressible = lz4_test l s_buf; lz4_test_done = true })

-- More passes than the test length can be doubled change nothing.
lz4_loop_more :
    (fuel more : ℕ) (l : Libs) (dlen : ℕ) (s_buf : List ℕ) (test_len : ℕ)
    → dlen < test_len * 2 ^ suc fuel
    → lz4_loop (suc fuel + more) l dlen s_buf test_len ≡ lz4_loop (suc fuel) l dlen s_buf test_len
unfolding lz4_loop
lz4_loop_more zero more l dlen s_buf test_len h =
    let e : suc zero + more ≡ suc more = omega arith in
    let last : leb (test_len * 2) dlen ≡ false = ground arith in rw (e, last)
lz4_loop_more (suc fuel) more l dlen s_buf test_len h =
    elim (Bool-cases (leb (test_len * 2) dlen)) [
      | inl b ↦
          let e : suc (suc fuel) + more ≡ suc (suc fuel + more) = omega arith in
          rw (e, b)
            (ap (λ t. if lz4_shrinks l dlen s_buf test_len then true else t)
              (lz4_loop_more fuel more l dlen s_buf (test_len * 2)
                (omega (arith, ap (λ t. test_len * t) (pow-suc 2 (suc fuel))))))
      | inr b ↦ let e : suc (suc fuel) + more ≡ suc (suc fuel + more) = omega arith in rw (e, b)
    ]

-- Nine passes are as good as more, on a block that is not empty.
pub lz4_test-fuel :
    (more : ℕ) (l : Libs) (s_buf : List ℕ)
    → 0 < length s_buf
    → lz4_loop
        (passes + more)
        l
        (min (length s_buf) stream_bufsize)
        s_buf
        (min (min (length s_buf) stream_bufsize) (stream_bufsize / 256))
      ≡ lz4_test l s_buf
unfolding lz4_test
lz4_test-fuel more l s_buf h = lz4_loop_more 8 more l _ s_buf _ (omega arith)

-- With memory for the first block, the test's answer and what is shared stay the same after it.
pub lz4_compresses_once :
    (l : Libs) (malloc : Malloc) (s : Settings) (c : SharedControl) (first other : List ℕ)
    → s.lz4_test ≡ true
    → malloc (min (length first) stream_bufsize) ≡ true
    → lz4_compresses l malloc s (lz4_compresses l malloc s c first).1 other
      ≡ lz4_compresses l malloc s c first
unfolding lz4_compresses
lz4_compresses_once l malloc s c first other e m = elim (Bool-cases c.lz4_test_done) [
  | inl d ↦ rw (e, d)
  | inr d ↦ rw (e, d, m)
]
