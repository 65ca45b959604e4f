-- ===== src/Rzip/Search/Covers.antt =====
-- What `hash_search` leaves in the streams: tokens for the whole chunk, and the end marker.
use lrzip.Common.{
  ℕ, ◌+◌, ◌^◌, ◌≤◌, ◌<◌, ◌≡◌, refl, arith, List, [], ◌∷◌, ◌++◌, ltb, Bool, append-nil, Bool-cases,
  inl, inr,
}
use lrzip.Common.Bytes.{le_bytes}
use lrzip.Rzip.Output.{Output, put_literal}
use lrzip.Rzip.Output.Control.{IsReady, Writes, Writes-trans, s0_flush-Writes, s0_flush-empty}
use lrzip.Rzip.Output.Emit.{Emits, Emits-refl, Emits-trans, put_literal-Emits, put_literal_end}
use lrzip.Rzip.Tokens.{Token, IsTokens, after, controls, literals}
use lrzip.Rzip.Table.{Level}
use lrzip.Rzip.Match.{minimum_match}
use lrzip.Rzip.Search.{Search, start, searched, put_tail, finish_output, hash_search}
use lrzip.Rzip.Search.Step.{IsSearch, search_loop-IsSearch}
use lrzip.Rzip.Search.Ends.{search_fuel_enough}

-- The step from `o` to `o'` wrote tokens for exactly the bytes of the chunk, and the end marker
-- behind them, and the batch is empty.
pub record Covers (buf : ℕ → ℕ) (chunk_size chunk_bytes bufsize : ℕ) (o o' : Output) : Type 0 where
  pub tokens : List Token
  pub valid : IsTokens buf chunk_bytes 0 tokens
  pub complete : after 0 tokens ≡ chunk_size
  pub written :
      Writes bufsize o o'
        (controls chunk_bytes tokens ++ (0 ∷ le_bytes 2 0))
        (literals buf 0 tokens)
  pub flushed : o'.s0_buf ≡ []

module _ (hash_index buf : ℕ → ℕ) (chunk_size chunk_bytes bufsize capacity : ℕ) (feed : Bool)
    (o : Output) (fits : chunk_size < 256 ^ chunk_bytes) (level : Level) (victim_round : ℕ)
    (ready : IsReady bufsize (record o { s0_buf = [] })) where
  start-IsSearch :
      IsSearch hash_index buf chunk_size chunk_bytes bufsize capacity feed
        (record o { s0_buf = [] })
        fits
        (start hash_index buf chunk_size chunk_bytes bufsize capacity feed level victim_round o)
  unfolding start
  start-IsSearch = record {
    emitted = Emits-refl bufsize chunk_bytes buf 0 ready;
    ordered = omega arith;
    bounded = omega arith;
    current = λ ne. absurd (ne refl);
  }

  searched-IsSearch :
      IsSearch hash_index buf chunk_size chunk_bytes bufsize capacity feed
        (record o { s0_buf = [] })
        fits
        (searched hash_index buf chunk_size chunk_bytes bufsize capacity feed level victim_round o)
  unfolding searched
  searched-IsSearch =
      search_loop-IsSearch hash_index buf chunk_size chunk_bytes bufsize capacity feed _ fits _ _
        start-IsSearch

  -- Where the chunk's size fits its offset width and the streams' buffers have room, the search
  -- loop ends with `p` at or behind the last position that a match can start from, though a match
  -- may set `p` back.
  pub searched_ends :
      chunk_size
      ≤ (searched hash_index buf chunk_size chunk_bytes bufsize capacity feed level victim_round
          o).p
        + minimum_match
  unfolding searched
  searched_ends = omega (
    arith,
    search_fuel_enough hash_index buf chunk_size chunk_bytes bufsize capacity feed _ fits _
        start-IsSearch,
  )

  put_tail-Emits :
      Emits bufsize chunk_bytes buf
        (record o { s0_buf = [] })
        (put_tail hash_index buf chunk_size chunk_bytes bufsize capacity feed (
          searched hash_index buf chunk_size chunk_bytes bufsize capacity feed level victim_round
            o))
        0
        chunk_size
  unfolding put_tail
  put_tail-Emits = elim (Bool-cases (ltb s.last_match chunk_size)) [
    | inl e ↦ rw e (
        Emits-trans bufsize chunk_bytes buf 0 s.last_match chunk_size h.emitted (
          put_literal-Emits bufsize chunk_bytes buf s.out s.last_match chunk_size
            h.emitted.written.ready (ground arith)))
    | inr e ↦
        let q : s.last_match ≡ chunk_size = ground (arith, h.ordered, h.bounded) in
        rw e (rw q at h.emitted)
  ]
    where
      s : Search
      s = searched hash_index buf chunk_size chunk_bytes bufsize capacity feed level victim_round o

      h :
          IsSearch hash_index buf chunk_size chunk_bytes bufsize capacity feed
            (record o { s0_buf = [] })
            fits
            s
      h = searched-IsSearch

  -- Where the chunk's size fits its offset width and the streams' buffers have room, `hash_search`
  -- appends to the two streams the bytes of tokens that are true of the chunk and make up all of
  -- it, and the end marker, and leaves the batch empty.
  pub hash_search-Covers :
      Covers buf chunk_size chunk_bytes bufsize
        (record o { s0_buf = [] })
        (hash_search hash_index buf chunk_size chunk_bytes bufsize capacity feed level victim_round
          o).0
  unfolding hash_search finish_output
  hash_search-Covers = record {
    tokens = put_tail-Emits.tokens;
    valid = put_tail-Emits.valid;
    complete = put_tail-Emits.reaches;
    written =
        rw (append-nil _, append-nil _) at
          (Writes-trans bufsize put_tail-Emits.written (
            Writes-trans bufsize marked (
              s0_flush-Writes bufsize chunk_bytes buf _ marked.ready.control
                marked.ready.literal)));
    flushed = s0_flush-empty bufsize chunk_bytes buf _;
  }
    where
      tail : Output
      tail = put_tail hash_index buf chunk_size chunk_bytes bufsize capacity feed (
          searched hash_index buf chunk_size chunk_bytes bufsize capacity feed level victim_round o)

      marked :
          Writes bufsize tail (put_literal bufsize chunk_bytes buf tail 0 0) (0 ∷ le_bytes 2 0) []
      marked = put_literal_end bufsize chunk_bytes buf tail put_tail-Emits.written.ready
