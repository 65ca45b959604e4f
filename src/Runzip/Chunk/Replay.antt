-- ===== src/Runzip/Chunk/Replay.antt =====
-- The token loop rebuilds the chunk from any tokens that are true of it.
use lrzip.Common.{
  ℕ, zero, suc, ◌+◌, ◌-◌, ◌≤◌, ◌<◌, min, ◌≡◌, refl, ap, ◌∙◌, arith, List, [], ◌∷◌, ◌++◌, length,
  take, drop, leb, ◌==◌, if◌then◌else◌, true, false, ◌&&◌, some, length-append, take-append,
  drop-append, append_assoc, drop-append_ge, ==_refl, Bool-cases, inl, inr,
}
use lrzip.Common.Slice.{slice, length-slice, slice-append, take-slice, drop-slice, slice_ext}
use lrzip.Common.Bytes.{le_bytes}
use lrzip.Stream.Read.{InStream, remaining, read_stream, read_stream_lem}
use lrzip.Rzip.Tokens.{
  Token, literal, copy, token_len, control_of, controls, after, literal_of, literals, IsCopy,
  IsToken, IsTokens,
}
use lrzip.Runzip.Window.{
  Window, available, IsWindow, s0_vchars, s0_vchars_lem, read_header, read_header_lem, Reads,
}
use lrzip.Runzip.Expand.{match_expand-slice}
use lrzip.Runzip.Chunk.{
  Reader, max_token_len, match_cksum, write_out, unzip_literal, read_fdhist, unzip_match,
  unzip_token, unzip_loop, unzip_tokens, filter_none,
}

module _ (chunk : ℕ → ℕ) (chunk_filter chunk_bytes : ℕ) (start : Reader) where
  -- The reader stands at position `pos` of the chunk, with `ctrl` and `lits` still to be read.
  pub record IsAt (pos : ℕ) (ctrl lits : List ℕ) (r : Reader) : Type 0 where
    pub window : IsWindow r.control
    pub control : available r.control ≡ ctrl
    pub literal : remaining r.literal ≡ lits
    pub out : r.out ≡ start.out ++ slice chunk 0 pos
    pub summed :
        r.summed
        ≡ (if chunk_filter == filter_none then start.summed ++ slice chunk 0 pos else start.summed)
    pub total : r.total ≡ start.total + pos

  grows :
      (pos n : ℕ) (xs : List ℕ)
      → (xs ++ slice chunk 0 pos) ++ slice chunk pos n ≡ xs ++ slice chunk 0 (pos + n)
  grows pos n xs =
      append_assoc xs (slice chunk 0 pos) (slice chunk pos n)
      ∙ ap (λ t. xs ++ t) (slice-append chunk 0 pos n pos (omega arith))

  not_zero : (n : ℕ) → 1 ≤ n → (n == 0) ≡ false
  not_zero n h = ground arith

  write_out-IsAt :
      (pos n : ℕ) {ctrl lits : List ℕ} {r : Reader}
      → IsAt pos ctrl lits r
      → IsAt (pos + n) ctrl lits (write_out chunk_filter chunk_bytes 2 r (slice chunk pos n))
  unfolding write_out match_cksum
  write_out-IsAt pos n {ctrl} {lits} {r} h = record {
    window = h.window;
    control = h.control;
    literal = h.literal;
    out = ap (λ t. t ++ slice chunk pos n) h.out ∙ grows pos n start.out;
    summed = elim (Bool-cases (chunk_filter == filter_none)) [
      | inl e ↦
          rw e (ap (λ t. t ++ slice chunk pos n) (rw e at h.summed) ∙ grows pos n start.summed)
      | inr e ↦ rw e (rw e at h.summed)
    ];
    total = omega (arith, h.total, length-slice chunk pos n);
  }

  unzip_literal-IsAt :
      (pos n : ℕ) {ctrl lits : List ℕ} {r : Reader}
      → 1 ≤ n
      → n ≤ max_token_len
      → IsAt pos ctrl (slice chunk pos n ++ lits) r
      → (r' : Reader) × (unzip_literal chunk_filter chunk_bytes 2 r n ≡ some r')
        × IsAt (pos + n) ctrl lits r'
  unfolding unzip_literal
  unzip_literal-IsAt pos n {ctrl} {lits} {r} one fits h = (
    write_out chunk_filter chunk_bytes 2 (record r { literal = b.1 }) (slice chunk pos n),
    rw (not_zero n one, short, got, ==_refl _ _ (length-slice chunk pos n)) refl,
    write_out-IsAt pos n (record {
      window = h.window;
      control = h.control;
      literal =
          (read_stream_lem r.literal n).1
          ∙ ap (drop n) h.literal
          ∙ drop-append n (slice chunk pos n) lits (length-slice chunk pos n);
      out = h.out;
      summed = h.summed;
      total = h.total;
    }),
  )
    where
      b : List ℕ × InStream
      b = read_stream r.literal n

      short : leb n max_token_len ≡ true
      short = ground arith

      got : b.0 ≡ slice chunk pos n
      got =
          (read_stream_lem r.literal n).0
          ∙ ap (take n) h.literal
          ∙ take-append n (slice chunk pos n) lits (length-slice chunk pos n)

  unzip_match-IsAt :
      (pos ofs n : ℕ) {ctrl lits : List ℕ} {r : Reader}
      → 1 ≤ n
      → n ≤ max_token_len
      → chunk_bytes ≤ 8
      → IsCopy chunk chunk_bytes pos ofs n
      → IsAt pos (le_bytes chunk_bytes ofs ++ ctrl) lits r
      → (r' : Reader) × (unzip_match chunk_filter chunk_bytes 2 r n ≡ some r')
        × IsAt (pos + n) ctrl lits r'
  unfolding unzip_match
  unzip_match-IsAt pos ofs n {ctrl} {lits} {r} one fits cb c h =
      finish
        (s0_vchars_lem r.control chunk_bytes ofs ctrl h.window h.control c.ofs_fits (omega arith))
    where
      cur : length r.out ≡ length start.out + pos
      cur = omega (
        arith,
        ap length h.out,
        length-append start.out (slice chunk 0 pos),
        length-slice chunk 0 pos,
      )

      period : ℕ
      period = min n ofs

      history : take period (drop (length r.out - ofs) r.out) ≡ slice chunk pos period
      history =
          let e : length r.out - ofs ≡ length start.out + (pos - ofs) =
            omega (arith, cur, c.ofs_back) in
          let f : length start.out + (pos - ofs) - length start.out ≡ pos - ofs = omega arith in
          ap (λ k. take period (drop k r.out)) e
          ∙ ap (λ t. take period (drop (length start.out + (pos - ofs)) t)) h.out
          ∙ ap (take period) (
              drop-append_ge (length start.out + (pos - ofs)) start.out (slice chunk 0 pos)
                (omega arith)
              ∙ ap (λ k. drop k (slice chunk 0 pos)) f
              ∙ drop-slice chunk (pos - ofs) 0 pos (pos - ofs) (omega arith))
          ∙ take-slice chunk period (pos - ofs) (pos - (pos - ofs)) (omega (arith, c.ofs_back))
          ∙ slice_ext chunk chunk (pos - ofs) pos period (λ k hk. c.same k (omega arith))

      first :
          read_fdhist chunk_filter chunk_bytes 2 r.out (length r.out - ofs) period
          ≡ some (slice chunk pos period)
      first = unfold read_fdhist in rw (history, ==_refl _ _ (length-slice chunk pos period)) refl

      short : leb n max_token_len ≡ true
      short = ground arith

      in_range : (leb 1 ofs && leb ofs (length r.out)) ≡ true
      in_range = ground (arith, cur, c.ofs_pos, c.ofs_back)

      some_period : leb 1 period ≡ true
      some_period = ground (arith, c.ofs_pos)

      finish :
          Reads ℕ (s0_vchars r.control chunk_bytes) ofs ctrl
          → (r' : Reader) × (unzip_match chunk_filter chunk_bytes 2 r n ≡ some r')
            × IsAt (pos + n) ctrl lits r'
      finish v = (
        write_out chunk_filter chunk_bytes 2 (record r { control = v.window }) (slice chunk pos n),
        rw (short, v.returns, in_range, some_period, first, match_expand-slice chunk c) refl,
        write_out-IsAt pos n (record {
          window = v.is_window;
          control = v.behind;
          literal = h.literal;
          out = h.out;
          summed = h.summed;
          total = h.total;
        }),
      )

  -- A header that stands next is taken, and the loop goes on with its token.
  loop_round :
      (pos head len : ℕ) {ctrl lits : List ℕ} {r : Reader}
      → 1 ≤ len
      → len ≤ max_token_len
      → IsAt pos ((head ∷ le_bytes 2 len) ++ ctrl) lits r
      → (fuel : ℕ)
      → (w' : Window) × ((r' : Reader)
          → unzip_token chunk_filter chunk_bytes 2 (record r { control = w' }) head len ≡ some r'
          → unzip_loop chunk_filter chunk_bytes 2 (suc fuel) r
            ≡ unzip_loop chunk_filter chunk_bytes 2 fuel r')
        × IsAt pos ctrl lits (record r { control = w' })
  unfolding unzip_loop
  loop_round pos head len {ctrl} {lits} {r} one fits h fuel =
      finish
        (read_header_lem 2 r.control head len ctrl h.window h.control (omega arith) (omega arith))
    where
      finish :
          (w' : Window) × (read_header 2 r.control ≡ some (head, len, w'))
            × IsWindow w'
            × (available w' ≡ ctrl)
          → (w' : Window) × ((r' : Reader)
              → unzip_token chunk_filter chunk_bytes 2 (record r { control = w' }) head len
                ≡ some r'
              → unzip_loop chunk_filter chunk_bytes 2 (suc fuel) r
                ≡ unzip_loop chunk_filter chunk_bytes 2 fuel r')
            × IsAt pos ctrl lits (record r { control = w' })
      finish (w', ret, is, beh) = (
        w',
        λ r' e. rw (ret, not_zero len one, e) refl,
        record {
          window = is;
          control = beh;
          literal = h.literal;
          out = h.out;
          summed = h.summed;
          total = h.total;
        },
      )

  -- One round of the loop, on the token that stands next.
  unzip_token-IsAt :
      (pos : ℕ) (t : Token) {ctrl lits : List ℕ} {r : Reader}
      → 1 ≤ token_len t
      → token_len t ≤ max_token_len
      → chunk_bytes ≤ 8
      → IsToken chunk chunk_bytes pos t
      → IsAt pos (control_of chunk_bytes t ++ ctrl) (literal_of chunk pos t ++ lits) r
      → (fuel : ℕ)
      → (r' : Reader) × (unzip_loop chunk_filter chunk_bytes 2 (suc fuel) r
          ≡ unzip_loop chunk_filter chunk_bytes 2 fuel r')
        × IsAt (pos + token_len t) ctrl lits r'
  unfolding unzip_token
  unzip_token-IsAt pos (literal n) one fits cb v h fuel =
      let (w', step, at) = loop_round pos 0 n one fits h fuel in
      let (r', e, at') = unzip_literal-IsAt pos n one fits at in (r', step r' e, at')
  unzip_token-IsAt pos (copy ofs n) {ctrl} {r = r} one fits cb c h fuel =
      let split : IsAt pos ((1 ∷ le_bytes 2 n) ++ (le_bytes chunk_bytes ofs ++ ctrl)) _ r =
        rw (← append_assoc (1 ∷ le_bytes 2 n) (le_bytes chunk_bytes ofs) ctrl) h in
      let (w', step, at) = loop_round pos 1 n one fits split fuel in
      let (r', e, at') = unzip_match-IsAt pos ofs n one fits cb c at in (r', step r' e, at')

  -- The end marker stops the loop.
  unzip_loop_end :
      (pos : ℕ) {ctrl lits : List ℕ} {r : Reader}
      → IsAt pos ((0 ∷ le_bytes 2 0) ++ ctrl) lits r
      → (fuel : ℕ)
      → (r' : Reader) × (unzip_loop chunk_filter chunk_bytes 2 (suc fuel) r ≡ some r')
        × IsAt pos ctrl lits r'
  unfolding unzip_loop
  unzip_loop_end pos {ctrl} {lits} {r} h fuel =
      let (w', ret, is, beh) =
        read_header_lem 2 r.control 0 0 ctrl h.window h.control (omega arith) (omega arith) in
      (
        record r { control = w' },
        rw ret refl,
        record {
          window = is;
          control = beh;
          literal = h.literal;
          out = h.out;
          summed = h.summed;
          total = h.total;
        },
      )

  -- The loop reads any tokens that are true of the chunk back into its bytes.
  pub unzip_loop-IsAt :
      (ts : List Token) (pos fuel : ℕ) {ctrl lits : List ℕ} {r : Reader}
      → chunk_bytes ≤ 8
      → IsTokens chunk chunk_bytes pos ts
      → length ts < fuel
      → IsAt pos
          (controls chunk_bytes ts ++ ((0 ∷ le_bytes 2 0) ++ ctrl))
          (literals chunk pos ts ++ lits)
          r
      → (r' : Reader) × (unzip_loop chunk_filter chunk_bytes 2 fuel r ≡ some r')
        × IsAt (after pos ts) ctrl lits r'
  unzip_loop-IsAt ts pos zero cb v f h = absurd (omega arith)
  unzip_loop-IsAt [] pos (suc fuel) cb v f h = unzip_loop_end pos h fuel
  unzip_loop-IsAt (t ∷ ts) pos (suc fuel) {ctrl} {lits} {r} cb (one, fits, tok, v) f h =
      let split : IsAt pos
          (control_of chunk_bytes t ++ (controls chunk_bytes ts ++ ((0 ∷ le_bytes 2 0) ++ ctrl)))
          (literal_of chunk pos t ++ (literals chunk (pos + token_len t) ts ++ lits)) r =
        rw
          (
            ← append_assoc (control_of chunk_bytes t) (controls chunk_bytes ts)
                ((0 ∷ le_bytes 2 0) ++ ctrl),
            ← append_assoc (literal_of chunk pos t) (literals chunk (pos + token_len t) ts) lits,
          )
          h in
      let (r', e, at) = unzip_token-IsAt pos t one fits cb tok split fuel in
      let (r'', e', at') = unzip_loop-IsAt ts (pos + token_len t) fuel cb v (omega arith) at in
      (r'', e ∙ e', at')

  length-controls : (ts : List Token) → length ts ≤ length (controls chunk_bytes ts)
  length-controls [] = omega arith
  length-controls (t ∷ ts) = omega (
    arith,
    length-controls ts,
    length-append (control_of chunk_bytes t) (controls chunk_bytes ts),
    one_byte t,
  )
    where
      one_byte : (t : Token) → 1 ≤ length (control_of chunk_bytes t)
      one_byte (literal n) = omega arith
      one_byte (copy ofs n) = omega arith

  -- Where valid tokens, the end marker and `ctrl` stand in the control stream, the tokens'
  -- literals and `lits` in the literal stream, and offsets have eight bytes at most, the token
  -- loop returns, having written and summed exactly the bytes that the tokens stand for, and
  -- leaves `ctrl` and `lits`.
  pub unzip_tokens-IsAt :
      (ts : List Token) {ctrl lits : List ℕ} {r : Reader}
      → chunk_bytes ≤ 8
      → IsTokens chunk chunk_bytes 0 ts
      → IsAt 0
          (controls chunk_bytes ts ++ ((0 ∷ le_bytes 2 0) ++ ctrl))
          (literals chunk 0 ts ++ lits)
          r
      → (r' : Reader) × (unzip_tokens chunk_filter chunk_bytes 2 r ≡ some r')
        × IsAt (after 0 ts) ctrl lits r'
  unfolding unzip_tokens
  unzip_tokens-IsAt ts {ctrl} {r = r} cb v h =
      unzip_loop-IsAt ts 0 _ cb v
        (omega (
          arith,
          ap length h.control,
          length-append (controls chunk_bytes ts) ((0 ∷ le_bytes 2 0) ++ ctrl),
          length-controls ts,
        ))
        h
