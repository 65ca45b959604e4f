-- ===== src/Rzip/Output/Emit.antt =====
-- `put_match` and `put_literal` write tokens that are true of the chunk.
use lrzip.Common.{
  ℕ, zero, suc, ◌+◌, ◌-◌, ◌≤◌, ◌<◌, min, ◌≡◌, refl, ◌∙◌, arith, List, [], ◌∷◌, ◌++◌, ◌==◌, ltb,
  append-nil, false, Bool-cases, inl, inr,
}
use lrzip.Common.Slice.{slice}
use lrzip.Common.Bytes.{le_bytes}
use lrzip.Rzip.Tokens.{
  Token, literal, copy, control_of, controls, controls-append, after, after-append, literals,
  literals-append, IsCopy, IsCopy-front, IsCopy-back, IsTokens, IsTokens-append,
}
use lrzip.Rzip.Output.{
  Output, Stats, max_token_len, put_u8, put_vchars, put_header, count_match, put_copy,
  put_match_loop, put_match, count_literal, put_literal_bytes, put_run, put_literal_loop,
  put_literal,
}
use lrzip.Rzip.Output.Control.{
  IsReady, Writes, Writes-trans, Writes-refl, s0_write-Writes, write_sbstream-Writes,
}

module _ (bufsize chunk_bytes : ℕ) (buf : ℕ → ℕ) where
  -- The step from `o` to `o'` wrote tokens for the bytes of the chunk from `i` to `j`.
  pub record Emits (o o' : Output) (i j : ℕ) : Type 0 where
    pub tokens : List Token
    pub valid : IsTokens buf chunk_bytes i tokens
    pub reaches : after i tokens ≡ j
    pub written : Writes bufsize o o' (controls chunk_bytes tokens) (literals buf i tokens)

  pub Emits-refl : {o : Output} (i : ℕ) → IsReady bufsize o → Emits o o i i
  Emits-refl i h = record {
    tokens = [];
    valid = tt;
    reaches = refl;
    written = Writes-refl bufsize h;
  }

  pub Emits-trans :
      {o o' o'' : Output} (i j k : ℕ) → Emits o o' i j → Emits o' o'' j k → Emits o o'' i k
  Emits-trans {o} {o'} {o''} i j k e f = record {
    tokens = e.tokens ++ f.tokens;
    valid = IsTokens-append buf chunk_bytes i e.tokens f.tokens e.valid (rw e.reaches f.valid);
    reaches = after-append i e.tokens f.tokens ∙ rw e.reaches f.reaches;
    written =
        rw
          (
            controls-append chunk_bytes e.tokens f.tokens,
            literals-append buf i e.tokens f.tokens,
            e.reaches,
          )
          (Writes-trans bufsize e.written f.written);
  }

  Emits-to : {o o' : Output} {i j k : ℕ} → j ≡ k → Emits o o' i j → Emits o o' i k
  Emits-to e f = rw e at f

  -- The statistics do not matter.
  pub Emits-stats :
      {o o' : Output} {i j : ℕ} (st : Stats)
      → Emits o o' i j
      → Emits o (record o' { stats = st }) i j
  Emits-stats st e = record {
    tokens = e.tokens;
    valid = e.valid;
    reaches = e.reaches;
    written = record {
      ready = record {
        batch = e.written.ready.batch;
        control = e.written.ready.control;
        literal = e.written.ready.literal;
      };
      controls = e.written.controls;
      literals = e.written.literals;
    };
  }

  put_header-Writes :
      (o : Output) (head len : ℕ)
      → IsReady bufsize o
      → Writes bufsize o (put_header bufsize chunk_bytes buf o head len) (head ∷ le_bytes 2 len) []
  unfolding put_header put_vchars put_u8
  put_header-Writes o head len h =
      let w : Writes bufsize o (put_u8 bufsize chunk_bytes buf o head) (head ∷ []) [] =
        s0_write-Writes bufsize chunk_bytes buf o (head ∷ []) h in
      Writes-trans bufsize w (s0_write-Writes bufsize chunk_bytes buf _ (le_bytes 2 len) w.ready)

  -- Counting changes nothing else.
  count_match-Writes :
      {o o' : Output} {a b : List ℕ} (n : ℕ)
      → Writes bufsize o o' a b
      → Writes bufsize o (count_match bufsize chunk_bytes buf o' n) a b
  unfolding count_match
  count_match-Writes n w = record {
    ready = record { batch = w.ready.batch; control = w.ready.control; literal = w.ready.literal };
    controls = w.controls;
    literals = w.literals;
  }

  put_copy-Emits :
      (o : Output) (p ofs n : ℕ)
      → IsReady bufsize o
      → 1 ≤ n
      → n ≤ max_token_len
      → IsCopy buf chunk_bytes p ofs n
      → Emits o (put_copy bufsize chunk_bytes buf o ofs n) p (p + n)
  unfolding put_copy put_vchars
  put_copy-Emits o p ofs n h one fits c = record {
    tokens = copy ofs n ∷ [];
    valid = (one, fits, c, tt);
    reaches = refl;
    written = count_match-Writes n (
        rw (append-nil (control_of chunk_bytes (copy ofs n)))
          (Writes-trans bufsize w (s0_write-Writes bufsize chunk_bytes buf _ _ w.ready)));
  }
    where
      w : Writes bufsize o (put_header bufsize chunk_bytes buf o 1 n) (1 ∷ le_bytes 2 n) []
      w = put_header-Writes o 1 n h

  put_match_loop-Emits :
      (fuel : ℕ) (o : Output) (p offset len : ℕ)
      → IsReady bufsize o
      → 1 ≤ len
      → len < fuel
      → IsCopy buf chunk_bytes p (p - offset) len
      → Emits o (put_match_loop bufsize chunk_bytes buf fuel o p offset len) p (p + len)
  unfolding put_match_loop
  put_match_loop-Emits zero o p offset len h one f c = absurd (omega arith)
  put_match_loop-Emits (suc fuel) o p offset len h one f c =
      let n : ℕ = min max_token_len len in
      let first : Emits o (put_copy bufsize chunk_bytes buf o (p - offset) n) p (p + n) =
        put_copy-Emits o p (p - offset) n h (omega arith) (omega arith)
          (IsCopy-front buf (omega arith) c) in
      elim (Bool-cases (len - n == 0)) [
        | inl e ↦ rw e (Emits-to (ground arith) first)
        | inr e ↦
            let d : p + n - (offset + n) ≡ p - offset = omega arith in
            rw e (
              Emits-to (omega arith) (
                Emits-trans p (p + n) (p + n + (len - n)) first (
                  put_match_loop-Emits fuel _ (p + n) (offset + n) (len - n) first.written.ready
                    (ground arith) (omega arith) (rw d (IsCopy-back buf (omega arith) c)))))
      ]

  -- Where the buffers have room, and the `len` bytes at `p`, one at least, are a copy of those at
  -- the distance `p - offset`, `put_match` writes valid tokens for exactly the bytes from `p` to
  -- `p + len`.
  pub put_match-Emits :
      (o : Output) (p offset len : ℕ)
      → IsReady bufsize o
      → 1 ≤ len
      → IsCopy buf chunk_bytes p (p - offset) len
      → Emits o (put_match bufsize chunk_bytes buf o p offset len) p (p + len)
  unfolding put_match
  put_match-Emits o p offset len h one c =
      put_match_loop-Emits (suc len) o p offset len h one (omega arith) c

  count_literal-IsReady :
      (o : Output) (n : ℕ)
      → IsReady bufsize o
      → IsReady bufsize (count_literal bufsize chunk_bytes buf o n)
  unfolding count_literal
  count_literal-IsReady o n h = record { batch = h.batch; control = h.control; literal = h.literal }

  count_literal-Writes :
      {o o' : Output} {a b : List ℕ} (n : ℕ)
      → Writes bufsize (count_literal bufsize chunk_bytes buf o n) o' a b
      → Writes bufsize o o' a b
  unfolding count_literal
  count_literal-Writes n w = record {
    ready = w.ready;
    controls = w.controls;
    literals = w.literals;
  }

  put_literal_bytes-Writes :
      (o : Output) (last n : ℕ)
      → IsReady bufsize o
      → Writes bufsize o (put_literal_bytes bufsize chunk_bytes buf o last n) [] (slice buf last n)
  unfolding put_literal_bytes
  put_literal_bytes-Writes o last zero h = Writes-refl bufsize h
  put_literal_bytes-Writes o last (suc n) h =
      let e : (suc n == 0) ≡ false = ground arith in
      rw e (write_sbstream-Writes bufsize chunk_bytes buf o last (suc n) h)

  -- A token of `put_literal`, of any length; that of length 0 ends the chunk.
  pub put_run-Writes :
      (o : Output) (last n : ℕ)
      → IsReady bufsize o
      → Writes bufsize o
          (put_run bufsize chunk_bytes buf o last n)
          (0 ∷ le_bytes 2 n)
          (slice buf last n)
  unfolding put_run
  put_run-Writes o last n h = count_literal-Writes n (
      rw (append-nil (0 ∷ le_bytes 2 n)) at
        (Writes-trans bufsize w (put_literal_bytes-Writes _ last n w.ready)))
    where
      w :
          Writes bufsize
            (count_literal bufsize chunk_bytes buf o n)
            (put_header bufsize chunk_bytes buf (count_literal bufsize chunk_bytes buf o n) 0 n)
            (0 ∷ le_bytes 2 n)
            []
      w = put_header-Writes _ 0 n (count_literal-IsReady o n h)

  put_run-Emits :
      (o : Output) (last n : ℕ)
      → IsReady bufsize o
      → 1 ≤ n
      → n ≤ max_token_len
      → Emits o (put_run bufsize chunk_bytes buf o last n) last (last + n)
  put_run-Emits o last n h one fits = record {
    tokens = literal n ∷ [];
    valid = (one, fits, tt, tt);
    reaches = refl;
    written =
        rw (append-nil (control_of chunk_bytes (literal n)), append-nil (slice buf last n))
          (put_run-Writes o last n h);
  }

  put_literal_loop-Emits :
      (fuel : ℕ) (o : Output) (last p : ℕ)
      → IsReady bufsize o
      → last < p
      → p - last < fuel
      → Emits o (put_literal_loop bufsize chunk_bytes buf fuel o last p) last p
  unfolding put_literal_loop
  put_literal_loop-Emits zero o last p h lt f = absurd (omega arith)
  put_literal_loop-Emits (suc fuel) o last p h lt f =
      let n : ℕ = min max_token_len (p - last) in
      let first : Emits o (put_run bufsize chunk_bytes buf o last n) last (last + n) =
        put_run-Emits o last n h (omega arith) (omega arith) in
      elim (Bool-cases (ltb (last + n) p)) [
        | inl e ↦ rw e (
            Emits-trans last (last + n) p first (
              put_literal_loop-Emits fuel _ (last + n) p first.written.ready (ground arith)
                (omega arith)))
        | inr e ↦ rw e (Emits-to (ground arith) first)
      ]

  -- Where the buffers have room, and `last` is before `p`, `put_literal` writes valid tokens for
  -- exactly the bytes from `last` to `p`.
  pub put_literal-Emits :
      (o : Output) (last p : ℕ)
      → IsReady bufsize o
      → last < p
      → Emits o (put_literal bufsize chunk_bytes buf o last p) last p
  unfolding put_literal
  put_literal-Emits o last p h lt =
      put_literal_loop-Emits (suc (p - last)) o last p h lt (omega arith)

  -- `put_literal(control, st, 0, 0)` writes the end marker, and nothing to the literal stream.
  pub put_literal_end :
      (o : Output)
      → IsReady bufsize o
      → Writes bufsize o (put_literal bufsize chunk_bytes buf o 0 0) (0 ∷ le_bytes 2 0) []
  unfolding put_literal put_literal_loop
  put_literal_end o h = put_run-Writes o 0 0 h
