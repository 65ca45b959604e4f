-- ===== src/Stream/Write.antt =====
-- stream.c, the writer's side: `write_stream` fills a buffer of `bufsize` bytes and `flush_buffer`
-- hands each full one to a compression thread.
use lrzip.Common.{
  ℕ, zero, suc, ◌-◌, ◌≤◌, ◌<◌, min, ◌≡◌, sym, ap, ◌∙◌, arith, List, [], ◌∷◌, ◌++◌, length, take,
  drop, concat, ◌==◌, if◌then◌else◌, length-append, length-take, length-drop, All, All-append,
  Bool-cases, inl, inr, ==_iff, take-append-drop, concat-append, append-nil, append_assoc,
}

-- `struct stream` of an output stream: the bytes `buf[0..buflen)`, and the buffers that have been
-- handed on, oldest first.
pub record OutStream : Type 0 where
  pub buf : List ℕ
  pub flushed : List (List ℕ)

abbrev pub empty_stream : OutStream
empty_stream = record { buf = []; flushed = [] }

-- `clear_buffer` with `newbuf`: the thread takes the buffer, the stream gets an empty one.
unfoldable pub flush_buffer : OutStream → OutStream
flush_buffer s = record { buf = []; flushed = s.flushed ++ (s.buf ∷ []) }

-- "Flush the buffer every sinfo->bufsize".
unfoldable pub flush_if_full : ℕ → OutStream → OutStream
flush_if_full bufsize s = if length s.buf == bufsize then flush_buffer s else s

-- One round of `write_stream`: the `n` bytes that fit, and a flush if that fills the buffer.
unfoldable pub write_round : ℕ → OutStream → List ℕ → OutStream
write_round bufsize s p =
    flush_if_full bufsize
      (record s { buf = s.buf ++ take (min (bufsize - length s.buf) (length p)) p })

-- The loop `while (len)`. Each round takes a byte at least, so a round for each byte is enough.
unfoldable pub write_loop : ℕ → ℕ → OutStream → List ℕ → OutStream
write_loop fuel bufsize s [] = s
write_loop zero bufsize s (x ∷ p) = s
write_loop (suc fuel) bufsize s (x ∷ p) =
    write_loop fuel bufsize (write_round bufsize s (x ∷ p))
      (drop (min (bufsize - length s.buf) (length (x ∷ p))) (x ∷ p))

unfoldable pub write_stream : ℕ → OutStream → List ℕ → OutStream
write_stream bufsize s p = write_loop (length p) bufsize s p

-- All that has been written to the stream.
abbrev pub contents : OutStream → List ℕ
contents s = concat s.flushed ++ s.buf

-- Between calls the buffer is never full, and each buffer handed on was.
pub record IsOpen (bufsize : ℕ) (s : OutStream) : Type 0 where
  pub room : length s.buf < bufsize
  pub full : All (λ b. length b ≡ bufsize) s.flushed

contents-flush_buffer : (s : OutStream) → contents (flush_buffer s) ≡ contents s
unfolding flush_buffer
contents-flush_buffer s =
    append-nil _
    ∙ concat-append s.flushed (s.buf ∷ [])
    ∙ ap (λ t. concat s.flushed ++ t) (append-nil s.buf)

contents-flush_if_full :
    (bufsize : ℕ) (s : OutStream) → contents (flush_if_full bufsize s) ≡ contents s
unfolding flush_if_full
contents-flush_if_full bufsize s = elim (Bool-cases (length s.buf == bufsize)) [
  | inl e ↦ rw e (contents-flush_buffer s)
  | inr e ↦ rw e
]

flush_if_full-IsOpen :
    (bufsize : ℕ) (s : OutStream)
    → 0 < bufsize
    → length s.buf ≤ bufsize
    → All (λ b. length b ≡ bufsize) s.flushed
    → IsOpen bufsize (flush_if_full bufsize s)
unfolding flush_if_full flush_buffer
flush_if_full-IsOpen bufsize s pos h full = elim (Bool-cases (length s.buf == bufsize)) [
  | inl e ↦ rw e (record {
    room = pos;
    full = All-append (λ b. length b ≡ bufsize) s.flushed (s.buf ∷ []) full ((==_iff _ _).0 e, tt);
  })
  | inr e ↦ rw e (record { room = ground arith; full = full })
]

contents-write_round :
    (bufsize : ℕ) (s : OutStream) (p : List ℕ)
    → contents (write_round bufsize s p)
      ≡ contents s ++ take (min (bufsize - length s.buf) (length p)) p
unfolding write_round
contents-write_round bufsize s p =
    contents-flush_if_full bufsize _ ∙ sym (append_assoc (concat s.flushed) s.buf _)

write_round-IsOpen :
    (bufsize : ℕ) (s : OutStream) (p : List ℕ)
    → IsOpen bufsize s
    → IsOpen bufsize (write_round bufsize s p)
unfolding write_round
write_round-IsOpen bufsize s p h =
    flush_if_full-IsOpen bufsize _ (omega arith)
      (omega (arith, length-append s.buf (take n p), length-take n p)) h.full
  where
    n : ℕ
    n = min (bufsize - length s.buf) (length p)

contents-write_loop :
    (fuel bufsize : ℕ) (s : OutStream) (p : List ℕ)
    → IsOpen bufsize s
    → length p ≤ fuel
    → (contents (write_loop fuel bufsize s p) ≡ contents s ++ p)
      × IsOpen bufsize (write_loop fuel bufsize s p)
unfolding write_loop
contents-write_loop fuel bufsize s [] h hf = (sym (append-nil _), h)
contents-write_loop zero bufsize s (x ∷ p) h hf = absurd (omega arith)
contents-write_loop (suc fuel) bufsize s (x ∷ p) h hf = chain (
    contents-write_loop fuel bufsize (write_round bufsize s q) (drop n q)
      (write_round-IsOpen bufsize s q h) (omega (arith, length-drop n q, h.room)))
  where
    q : List ℕ
    q = x ∷ p

    n : ℕ
    n = min (bufsize - length s.buf) (length q)

    r : OutStream
    r = write_loop fuel bufsize (write_round bufsize s q) (drop n q)

    chain :
        (contents r ≡ contents (write_round bufsize s q) ++ drop n q) × IsOpen bufsize r
        → (contents r ≡ contents s ++ q) × IsOpen bufsize r
    chain (e, o) = (
      e
          ∙ ap (λ t. t ++ drop n q) (contents-write_round bufsize s q)
          ∙ append_assoc (contents s) (take n q) (drop n q)
          ∙ ap (λ t. contents s ++ t) (take-append-drop n q),
      o,
    )

-- On a stream whose buffer has room and whose earlier blocks are full, `write_stream` appends
-- exactly the bytes that it is given, and leaves such a stream.
pub contents-write_stream :
    (bufsize : ℕ) (s : OutStream) (p : List ℕ)
    → IsOpen bufsize s
    → (contents (write_stream bufsize s p) ≡ contents s ++ p)
      × IsOpen bufsize (write_stream bufsize s p)
unfolding write_stream
contents-write_stream bufsize s p h = contents-write_loop (length p) bufsize s p h (omega arith)

-- `close_stream_out` hands the last buffer on, full or not: what the back ends are given, in order.
unfoldable pub close_stream_out : OutStream → List (List ℕ)
close_stream_out s = s.flushed ++ (s.buf ∷ [])

pub concat-close_stream_out : (s : OutStream) → concat (close_stream_out s) ≡ contents s
unfolding close_stream_out
concat-close_stream_out s =
    concat-append s.flushed (s.buf ∷ []) ∙ ap (λ t. concat s.flushed ++ t) (append-nil s.buf)

-- Where the last buffer holds something, so does every buffer that is handed on.
pub All-close_stream_out :
    (bufsize : ℕ) {s : OutStream}
    → IsOpen bufsize s
    → 0 < length s.buf
    → All (λ b. 0 < length b) (close_stream_out s)
unfolding close_stream_out
All-close_stream_out bufsize {s} h last =
    All-append (λ b. 0 < length b) s.flushed (s.buf ∷ []) (each s.flushed h.full) (last, tt)
  where
    each : (bs : List (List ℕ)) → All (λ b. length b ≡ bufsize) bs → All (λ b. 0 < length b) bs
    each [] q = tt
    each (b ∷ bs) (e, q) = (omega (arith, h.room), each bs q)
