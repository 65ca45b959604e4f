-- ===== src/Stream/Read.antt =====
-- stream.c, the reader's side: `read_stream` copies from the current block and takes the next one
-- when that is used up.
use lrzip.Common.{
  ℕ, ◌-◌, true, refl, ◌<◌, min, ◌≡◌, sym, ap, ◌∙◌, arith, List, [], ◌∷◌, ◌++◌, length, take, drop,
  concat, ◌==◌, if◌then◌else◌, take-append_ge, drop-append_ge, take-append_le, drop-append_le,
  append-nil, Bool-cases, inl, inr,
}

-- `struct stream` of an input stream: `buf` holds the bytes of the current block from `bufp` on,
-- and `blocks` are those that the decompression threads still have to deliver. None of them is empty:
-- `fill_buffer` starts no thread for an empty block.
pub record InStream : Type 0 where
  pub buf : List ℕ
  pub blocks : List (List ℕ)

-- Of a stream's blocks those that reach the reader: `fill_buffer` passes over an empty one, which it
-- allows at the end of stream 1 only.
abbrev pub filled : List (List ℕ) → List (List ℕ)
filled [] = []
filled (b ∷ bs) = if length b == 0 then filled bs else b ∷ filled bs

pub concat-filled : (bs : List (List ℕ)) → concat (filled bs) ≡ concat bs
concat-filled [] = refl
concat-filled (b ∷ bs) = elim (Bool-cases (length b == 0)) [
  | inl e ↦ rw (e, nothing b e) (concat-filled bs)
  | inr e ↦ rw e (ap (λ t. b ++ t) (concat-filled bs))
]
  where
    nothing : (c : List ℕ) → (length c == 0) ≡ true → c ≡ []
    nothing [] h = refl
    nothing (x ∷ xs) h = absurd (ground arith)

-- All that is still to be read.
abbrev pub remaining : InStream → List ℕ
remaining s = s.buf ++ concat s.blocks

abbrev pub open_stream : List (List ℕ) → InStream
open_stream bs = record { buf = []; blocks = bs }

-- The loop `while (len)`: `n` bytes of the current block, and the next block when more is wanted.
-- At the end of the stream the loop stops short.
unfoldable pub read_loop : List ℕ → List (List ℕ) → ℕ → List ℕ × InStream
read_loop buf [] len = (take len buf, record { buf = drop len buf; blocks = [] })
read_loop buf (b ∷ bs) len =
    let rest = read_loop b bs (len - min (length buf) len) in
    if len - min (length buf) len == 0
    then (take len buf, record { buf = drop len buf; blocks = b ∷ bs })
    else (buf ++ rest.0, rest.1)

unfoldable pub read_stream : InStream → ℕ → List ℕ × InStream
read_stream s len = read_loop s.buf s.blocks len

read_loop_lem :
    (buf : List ℕ) (bs : List (List ℕ)) (len : ℕ)
    → ((read_loop buf bs len).0 ≡ take len (buf ++ concat bs))
      × (remaining (read_loop buf bs len).1 ≡ drop len (buf ++ concat bs))
unfolding read_loop
read_loop_lem buf [] len = (rw append-nil, append-nil (drop len buf) ∙ rw append-nil)
read_loop_lem buf (b ∷ bs) len = elim (Bool-cases (len - min (length buf) len == 0)) [
  | inl e ↦
      rw e (
        sym (take-append_le len buf _ (ground arith)),
        sym (drop-append_le len buf _ (ground arith)),
      )
  | inr e ↦ rw e (step (ground arith) (read_loop_lem b bs (len - min (length buf) len)))
]
  where
    m : ℕ
    m = len - min (length buf) len

    more : List ℕ
    more = b ++ concat bs

    step :
        length buf < len
        → ((read_loop b bs m).0 ≡ take m more) × (remaining (read_loop b bs m).1 ≡ drop m more)
        → (buf ++ (read_loop b bs m).0 ≡ take len (buf ++ more))
          × (remaining (read_loop b bs m).1 ≡ drop len (buf ++ more))
    step h (t, d) =
        let e : m ≡ len - length buf = omega arith in
        (
          ap (λ u. buf ++ u) (t ∙ ap (λ k. take k more) e)
              ∙ sym (take-append_ge len buf more (omega arith)),
          d ∙ ap (λ k. drop k more) e ∙ sym (drop-append_ge len buf more (omega arith)),
        )

-- `read_stream` returns the next `len` bytes of the stream, or all that are left, and leaves the
-- rest, whatever the blocks are cut into.
pub read_stream_lem :
    (s : InStream) (len : ℕ)
    → ((read_stream s len).0 ≡ take len (remaining s))
      × (remaining (read_stream s len).1 ≡ drop len (remaining s))
unfolding read_stream
read_stream_lem s len = read_loop_lem s.buf s.blocks len
