-- ===== src/Rzip/Output/Control.antt =====
-- The batched writes lose nothing: what `s0_write` and `write_sbstream` add to the streams.
use lrzip.Common.{
  ℕ, zero, suc, ◌+◌, ◌-◌, ◌≤◌, ◌<◌, min, ◌≡◌, refl, sym, ap, ap₂, ◌∙◌, arith, List, [], ◌∷◌, ◌++◌,
  length, take, drop, ◌==◌, length-append, length-take, length-drop, take-append-drop, append-nil,
  append_assoc, Bool-cases, inl, inr,
}
use lrzip.Common.Slice.{slice, take-slice, drop-slice, length-slice}
use lrzip.Stream.Write.{
  OutStream, contents, IsOpen, flush_if_full, write_loop, write_round, write_stream,
  contents-write_stream,
}
use lrzip.Rzip.Output.{
  Output, rzip_s0_bufsize, s0_flush, s0_write_round, s0_write_loop, s0_write, write_sb_loop,
  write_sbstream,
}

-- All control bytes and all literal bytes written so far.
abbrev pub control_bytes : Output → List ℕ
control_bytes o = contents o.control ++ o.s0_buf

abbrev pub literal_bytes : Output → List ℕ
literal_bytes o = contents o.literal

module _ (bufsize : ℕ) where
  -- Between calls neither stream's buffer is full, nor is the batch.
  pub record IsReady (o : Output) : Type 0 where
    pub batch : length o.s0_buf < rzip_s0_bufsize
    pub control : IsOpen bufsize o.control
    pub literal : IsOpen bufsize o.literal

  -- The step from `o` to `o'` wrote the control bytes `a` and the literal bytes `b`.
  pub record Writes (o o' : Output) (a b : List ℕ) : Type 0 where
    pub ready : IsReady o'
    pub controls : control_bytes o' ≡ control_bytes o ++ a
    pub literals : literal_bytes o' ≡ literal_bytes o ++ b

  pub Writes-trans :
      {o o' o'' : Output} {a a' b b' : List ℕ}
      → Writes o o' a b
      → Writes o' o'' a' b'
      → Writes o o'' (a ++ a') (b ++ b')
  Writes-trans {o} {a} {a'} {b} {b'} w v = record {
    ready = v.ready;
    controls = v.controls ∙ ap (λ t. t ++ a') w.controls ∙ append_assoc (control_bytes o) a a';
    literals = v.literals ∙ ap (λ t. t ++ b') w.literals ∙ append_assoc (literal_bytes o) b b';
  }

  pub Writes-refl : {o : Output} → IsReady o → Writes o o [] []
  Writes-refl h = record { ready = h; controls = sym (append-nil _); literals = sym (append-nil _) }

  module _ (chunk_bytes : ℕ) (buf : ℕ → ℕ) where
    s0_flush-control_bytes :
        (o : Output)
        → IsOpen bufsize o.control
        → (control_bytes (s0_flush bufsize chunk_bytes buf o) ≡ control_bytes o)
          × IsOpen bufsize (s0_flush bufsize chunk_bytes buf o).control
    unfolding s0_flush
    s0_flush-control_bytes o h = elim (Bool-cases (length o.s0_buf == 0)) [
      | inl e ↦ rw e (refl, h)
      | inr e ↦ rw e (
        append-nil _ ∙ (contents-write_stream bufsize o.control o.s0_buf h).0,
        (contents-write_stream bufsize o.control o.s0_buf h).1,
      )
    ]

    s0_flush-rest :
        (o : Output)
        → (length (s0_flush bufsize chunk_bytes buf o).s0_buf ≡ 0)
          × ((s0_flush bufsize chunk_bytes buf o).literal ≡ o.literal)
    unfolding s0_flush
    s0_flush-rest o = ground arith

    no_bytes : (xs : List ℕ) → length xs ≡ 0 → xs ≡ []
    no_bytes [] e = refl
    no_bytes (x ∷ xs) e = absurd (omega arith)

    pub s0_flush-empty : (o : Output) → (s0_flush bufsize chunk_bytes buf o).s0_buf ≡ []
    s0_flush-empty o = no_bytes _ ((s0_flush-rest o).0)

    -- `s0_flush` moves the batch to stream 0 and empties it.
    pub s0_flush-Writes :
        (o : Output)
        → IsOpen bufsize o.control
        → IsOpen bufsize o.literal
        → Writes o (s0_flush bufsize chunk_bytes buf o) [] []
    s0_flush-Writes o h l = record {
      ready = record {
        batch = omega (arith, (s0_flush-rest o).0);
        control = (s0_flush-control_bytes o h).1;
        literal = rw ((s0_flush-rest o).1) l;
      };
      controls = (s0_flush-control_bytes o h).0 ∙ sym (append-nil _);
      literals = ap contents ((s0_flush-rest o).1) ∙ sym (append-nil _);
    }

    s0_write_round-Writes :
        (o : Output) (p : List ℕ)
        → IsReady o
        → Writes o
            (s0_write_round bufsize chunk_bytes buf o p)
            (take (min (rzip_s0_bufsize - length o.s0_buf) (length p)) p)
            []
    unfolding s0_write_round
    s0_write_round-Writes o p h = elim (Bool-cases (length filled == rzip_s0_bufsize)) [
      | inl e ↦ rw e (grown (s0_flush-Writes o' h.control h.literal))
      | inr e ↦ rw e (record {
        ready = record {
          batch = ground (arith, length-append o.s0_buf (take n p), length-take n p);
          control = h.control;
          literal = h.literal;
        };
        controls = sym (append_assoc (contents o.control) o.s0_buf (take n p));
        literals = sym (append-nil _);
      })
    ]
      where
        n : ℕ
        n = min (rzip_s0_bufsize - length o.s0_buf) (length p)

        filled : List ℕ
        filled = o.s0_buf ++ take n p

        o' : Output
        o' = record o { s0_buf = filled }

        grown :
            Writes o' (s0_flush bufsize chunk_bytes buf o') [] []
            → Writes o (s0_flush bufsize chunk_bytes buf o') (take n p) []
        grown w = record {
          ready = w.ready;
          controls =
              w.controls
              ∙ append-nil _
              ∙ sym (append_assoc (contents o.control) o.s0_buf (take n p));
          literals = w.literals;
        }

    s0_write_loop-Writes :
        (fuel : ℕ) (o : Output) (p : List ℕ)
        → IsReady o
        → length p ≤ fuel
        → Writes o (s0_write_loop bufsize chunk_bytes buf fuel o p) p []
    unfolding s0_write_loop
    s0_write_loop-Writes fuel o [] h hf = Writes-refl h
    s0_write_loop-Writes zero o (x ∷ p) h hf = absurd (omega arith)
    s0_write_loop-Writes (suc fuel) o (x ∷ p) h hf =
        let q : List ℕ = x ∷ p in
        let n : ℕ = min (rzip_s0_bufsize - length o.s0_buf) (length q) in
        let o' : Output = s0_write_round bufsize chunk_bytes buf o q in
        let w : Writes o o' (take n q) [] = s0_write_round-Writes o q h in
        rw (take-append-drop n q) at (
          Writes-trans w (
            s0_write_loop-Writes fuel o' (drop n q) w.ready
              (omega (arith, length-drop n q, h.batch))))

    -- `s0_write` adds exactly the bytes that it is given to the control stream.
    pub s0_write-Writes :
        (o : Output) (p : List ℕ) → IsReady o → Writes o (s0_write bufsize chunk_bytes buf o p) p []
    unfolding s0_write
    s0_write-Writes o p h = s0_write_loop-Writes (length p) o p h (omega arith)

    -- `write_sbstream` is `write_stream` of the bytes `[p, p + len)` of the chunk.
    write_sb_loop-write_loop :
        (fuel : ℕ) (s : OutStream) (p len : ℕ)
        → write_sb_loop bufsize chunk_bytes buf fuel s p len
          ≡ write_loop fuel bufsize s (slice buf p len)
    unfolding write_sb_loop write_loop write_round
    write_sb_loop-write_loop fuel s p zero = refl
    write_sb_loop-write_loop zero s p (suc len) = refl
    write_sb_loop-write_loop (suc fuel) s p (suc len) =
        let n : ℕ = min (bufsize - length s.buf) (suc len) in
        let tk : take n (slice buf p (suc len)) ≡ slice buf p n =
          take-slice buf n p (suc len) (omega arith) in
        let dp : drop n (slice buf p (suc len)) ≡ slice buf (p + n) (suc len - n) =
          drop-slice buf n p (suc len) (p + n) refl in
        let sl : List ℕ = slice buf p (suc len) in
        let e : min (bufsize - length s.buf) (length sl) ≡ n =
          ap (λ k. min (bufsize - length s.buf) k) (length-slice buf p (suc len)) in
        write_sb_loop-write_loop fuel _ (p + n) (suc len - n)
        ∙ sym (
            ap₂
              (λ x d.
                write_loop fuel bufsize (flush_if_full bufsize (record s { buf = s.buf ++ x })) d)
              (ap (λ k. take k sl) e ∙ tk) (ap (λ k. drop k sl) e ∙ dp))

    -- `write_sbstream` does to a stream what `write_stream` does with the bytes of the chunk from
    -- `p` on.
    pub write_sbstream-write_stream :
        (s : OutStream) (p len : ℕ)
        → write_sbstream bufsize chunk_bytes buf s p len ≡ write_stream bufsize s (slice buf p len)
    unfolding write_sbstream write_stream
    write_sbstream-write_stream s p len =
        rw (length-slice buf p len) (write_sb_loop-write_loop len s p len)

    pub write_sbstream-Writes :
        (o : Output) (p len : ℕ)
        → IsReady o
        → Writes o
            (record o { literal = write_sbstream bufsize chunk_bytes buf o.literal p len })
            []
            (slice buf p len)
    write_sbstream-Writes o p len h = rw (write_sbstream-write_stream o.literal p len) (record {
      ready = record {
        batch = h.batch;
        control = h.control;
        literal = (contents-write_stream bufsize o.literal (slice buf p len) h.literal).1;
      };
      controls = sym (append-nil _);
      literals = (contents-write_stream bufsize o.literal (slice buf p len) h.literal).0;
    })
