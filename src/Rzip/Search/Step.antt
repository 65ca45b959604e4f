-- ===== src/Rzip/Search/Step.antt =====
-- The invariant of the search loop: the tokens written make up the chunk up to `last_match`, and the
-- current match is a copy of earlier bytes behind it.
use lrzip.Common.{
  ℕ, zero, suc, ◌+◌, ◌-◌, ◌^◌, ◌≤◌, ◌<◌, ◌≡◌, ◌≢◌, refl, sym, arith, ltb, if◌then◌else◌, Bool, true,
  false, ◌&&◌, not, Bool-cases, inl, inr,
}
use lrzip.Rzip.Output.{Output}
use lrzip.Rzip.Output.Emit.{Emits, Emits-trans, Emits-stats, put_match-Emits, put_literal-Emits}
use lrzip.Rzip.Match.{minimum_match}
use lrzip.Rzip.Match.Bounds.{Agree}
use lrzip.Rzip.Tokens.{IsCopy}
use lrzip.Rzip.Table.{meets}
use lrzip.Rzip.Probe.{Best, Found, IsBest, find_best_match-Found}
use lrzip.Rzip.Search.{
  Search, Current, advance, count_probes, count_insert, clean_if_full, insert_tag, improve, is_due,
  put_gap, put_current, emit_if_due, feed_loop, feed_md5, best_at, consider, step, search_loop,
}

-- A match found but not yet written.
pub record IsCurrent (buf : ℕ → ℕ) (last_match end : ℕ) (c : Current) : Type 0 where
  pub long : minimum_match ≤ c.len
  pub starts : last_match ≤ c.p
  pub ends : c.p + c.len ≤ end
  pub earlier : c.ofs < c.p
  pub agree : Agree buf c.p c.ofs c.len

module _ (hash_index buf : ℕ → ℕ) (chunk_size chunk_bytes bufsize capacity : ℕ) (feed : Bool)
    (o : Output) (fits : chunk_size < 256 ^ chunk_bytes) where
  pub record IsSearch (s : Search) : Type 0 where
    pub emitted : Emits bufsize chunk_bytes buf o s.out 0 s.last_match
    pub ordered : s.last_match ≤ s.p
    pub bounded : s.p ≤ chunk_size - minimum_match
    pub current :
        s.current.len ≢ 0 → IsCurrent buf s.last_match (chunk_size - minimum_match) s.current

  pub advance-IsSearch :
      (s : Search)
      → IsSearch s
      → s.p < chunk_size - minimum_match
      → IsSearch (advance hash_index buf chunk_size chunk_bytes bufsize capacity feed s)
  unfolding advance
  advance-IsSearch s h lt = record {
    emitted = h.emitted;
    ordered = omega (arith, h.ordered);
    bounded = omega arith;
    current = h.current;
  }

  count_probes-IsSearch :
      (b : Best) (s : Search)
      → IsSearch s
      → IsSearch (count_probes hash_index buf chunk_size chunk_bytes bufsize capacity feed b s)
  unfolding count_probes
  count_probes-IsSearch b s h = record {
    emitted = Emits-stats bufsize chunk_bytes buf _ h.emitted;
    ordered = h.ordered;
    bounded = h.bounded;
    current = h.current;
  }

  clean_if_full-IsSearch :
      (s : Search)
      → IsSearch s
      → IsSearch (clean_if_full hash_index buf chunk_size chunk_bytes bufsize capacity feed s)
  unfolding clean_if_full
  clean_if_full-IsSearch s h = elim (Bool-cases (ltb s.table.hash_limit s.table.hash_count)) [
    | inl e ↦ rw e (record {
      emitted = h.emitted;
      ordered = h.ordered;
      bounded = h.bounded;
      current = h.current;
    })
    | inr e ↦ rw e h
  ]

  insert_tag-IsSearch :
      (s : Search)
      → IsSearch s
      → IsSearch (insert_tag hash_index buf chunk_size chunk_bytes bufsize capacity feed s)
  unfolding insert_tag count_insert
  insert_tag-IsSearch s h = elim (Bool-cases (meets s.t s.tag_mask)) [
    | inl e ↦ rw e (
        clean_if_full-IsSearch _ (record {
          emitted = Emits-stats bufsize chunk_bytes buf _ h.emitted;
          ordered = h.ordered;
          bounded = h.bounded;
          current = h.current;
        }))
    | inr e ↦ rw e h
  ]

  improve-IsSearch :
      (b : Best) (s : Search)
      → Found buf s.last_match s.p (chunk_size - minimum_match) b
      → IsSearch s
      → IsSearch (improve hash_index buf chunk_size chunk_bytes bufsize capacity feed b s)
  unfolding improve
  improve-IsSearch b s f h = elim (Bool-cases (ltb s.current.len b.length)) [
    | inl e ↦ rw e (record {
      emitted = h.emitted;
      ordered = h.ordered;
      bounded = h.bounded;
      current = λ ne.
          let i : IsBest buf s.last_match s.p (chunk_size - minimum_match) b.length b.offset
              b.reverse =
            f ne in
          record {
            long = i.long;
            starts = omega (arith, i.starts);
            ends = i.ends;
            earlier = i.earlier;
            agree = i.agree;
          };
    })
    | inr e ↦ rw e h
  ]

  put_gap-Emits :
      (s : Search)
      → IsSearch s
      → s.last_match ≤ s.current.p
      → Emits bufsize chunk_bytes buf o
          (put_gap hash_index buf chunk_size chunk_bytes bufsize capacity feed s)
          0
          s.current.p
  unfolding put_gap
  put_gap-Emits s h le = elim (Bool-cases (ltb s.last_match s.current.p)) [
    | inl e ↦ rw e (
        Emits-trans bufsize chunk_bytes buf 0 s.last_match s.current.p h.emitted (
          put_literal-Emits bufsize chunk_bytes buf s.out s.last_match s.current.p
            h.emitted.written.ready (ground arith)))
    | inr e ↦ let q : s.last_match ≡ s.current.p = ground arith in rw e (rw q at h.emitted)
  ]

  current-IsCopy :
      (s : Search)
      → IsCurrent buf s.last_match (chunk_size - minimum_match) s.current
      → IsCopy buf chunk_bytes s.current.p (s.current.p - s.current.ofs) s.current.len
  current-IsCopy s c = record {
    ofs_pos = omega (arith, c.earlier);
    ofs_back = omega arith;
    ofs_fits = omega (arith, c.ends, c.long, fits);
    same = λ k hk.
        let e : s.current.p - (s.current.p - s.current.ofs) ≡ s.current.ofs =
          omega (arith, c.earlier) in
        rw e (sym (c.agree k hk));
  }

  put_current-IsSearch :
      (s : Search)
      → IsSearch s
      → IsCurrent buf s.last_match (chunk_size - minimum_match) s.current
      → IsSearch (put_current hash_index buf chunk_size chunk_bytes bufsize capacity feed s)
  unfolding put_current
  put_current-IsSearch s h c = record {
    emitted = Emits-trans bufsize chunk_bytes buf 0 s.current.p (s.current.p + s.current.len) gap (
        put_match-Emits bufsize chunk_bytes buf _ s.current.p s.current.ofs s.current.len
          gap.written.ready (omega (arith, c.long)) (current-IsCopy s c));
    ordered = omega arith;
    bounded = c.ends;
    current = λ ne. absurd (ne refl);
  }
    where
      gap :
          Emits bufsize chunk_bytes buf o
            (put_gap hash_index buf chunk_size chunk_bytes bufsize capacity feed s)
            0
            s.current.p
      gap = put_gap-Emits s h c.starts

  -- A match that is due is a match.
  pub due-IsCurrent :
      (s : Search)
      → IsSearch s
      → is_due hash_index buf chunk_size chunk_bytes bufsize capacity feed s ≡ true
      → IsCurrent buf s.last_match (chunk_size - minimum_match) s.current
  unfolding is_due
  due-IsCurrent s h e = h.current (ground arith)

  emit_if_due-IsSearch :
      (s : Search)
      → IsSearch s
      → IsSearch (emit_if_due hash_index buf chunk_size chunk_bytes bufsize capacity feed s)
  unfolding emit_if_due
  emit_if_due-IsSearch s h =
      elim (Bool-cases (is_due hash_index buf chunk_size chunk_bytes bufsize capacity feed s)) [
        | inl e ↦ rw e (put_current-IsSearch s h (due-IsCurrent s h e))
        | inr e ↦ rw e h
      ]

  feed_loop-IsSearch :
      (fuel : ℕ) (s : Search)
      → IsSearch s
      → IsSearch (feed_loop hash_index buf chunk_size chunk_bytes bufsize capacity feed fuel s)
  unfolding feed_loop
  feed_loop-IsSearch zero s h = h
  feed_loop-IsSearch (suc fuel) s h =
      elim (Bool-cases (ltb s.cksum_limit chunk_size && ltb s.cksum_limit s.p)) [
        | inl e ↦ rw e (
            feed_loop-IsSearch fuel _ (record {
              emitted = h.emitted;
              ordered = h.ordered;
              bounded = h.bounded;
              current = h.current;
            }))
        | inr e ↦ rw e h
      ]

  either_way : (b : Bool) {s t : Search} → IsSearch s → IsSearch t → IsSearch (if b then s else t)
  either_way true h k = h
  either_way false h k = k

  feed_md5-IsSearch :
      (s : Search)
      → IsSearch s
      → IsSearch (feed_md5 hash_index buf chunk_size chunk_bytes bufsize capacity feed s)
  unfolding feed_md5
  feed_md5-IsSearch s h = either_way feed (feed_loop-IsSearch chunk_size s h) h

  -- Looking for a match and inserting the tag leave the positions alone.
  pub insert_tag-positions :
      (b : Best) (s : Search)
      → let s' =
          insert_tag hash_index buf chunk_size chunk_bytes bufsize capacity feed
            (count_probes hash_index buf chunk_size chunk_bytes bufsize capacity feed b s) in
        (s'.p ≡ s.p) × (s'.last_match ≡ s.last_match)
  unfolding insert_tag count_probes count_insert clean_if_full
  insert_tag-positions b s = ground arith

  -- The state in which the current match may be written.
  unfoldable pub improved : Search → Search
  improved s =
      let b = best_at hash_index buf chunk_size chunk_bytes bufsize capacity feed s in
      improve hash_index buf chunk_size chunk_bytes bufsize capacity feed b (
        insert_tag hash_index buf chunk_size chunk_bytes bufsize capacity feed
          (count_probes hash_index buf chunk_size chunk_bytes bufsize capacity feed b s))

  pub improved-IsSearch : (s : Search) → IsSearch s → IsSearch (improved s)
  unfolding improved best_at
  improved-IsSearch s h =
      improve-IsSearch _ _ found (insert_tag-IsSearch _ (count_probes-IsSearch _ s h))
    where
      b : Best
      b = best_at hash_index buf chunk_size chunk_bytes bufsize capacity feed s

      s' : Search
      s' =
          insert_tag hash_index buf chunk_size chunk_bytes bufsize capacity feed
            (count_probes hash_index buf chunk_size chunk_bytes bufsize capacity feed b s)

      found : Found buf s'.last_match s'.p (chunk_size - minimum_match) b
      found =
          rw ((insert_tag-positions b s).0, (insert_tag-positions b s).1)
            (find_best_match-Found buf s.last_match s.p (chunk_size - minimum_match) h.ordered
              h.bounded s.table s.t)

  consider-IsSearch :
      (s : Search)
      → IsSearch s
      → IsSearch (consider hash_index buf chunk_size chunk_bytes bufsize capacity feed s)
  unfolding consider improved
  consider-IsSearch s h = feed_md5-IsSearch _ (emit_if_due-IsSearch _ (improved-IsSearch s h))

  pub step-IsSearch :
      (s : Search)
      → IsSearch s
      → s.p < chunk_size - minimum_match
      → IsSearch (step hash_index buf chunk_size chunk_bytes bufsize capacity feed s)
  unfolding step
  step-IsSearch s h lt =
      let a : Search = advance hash_index buf chunk_size chunk_bytes bufsize capacity feed s in
      elim (Bool-cases (not (meets a.t a.table.minimum_tag_mask))) [
        | inl e ↦ rw e (advance-IsSearch s h lt)
        | inr e ↦ rw e (consider-IsSearch a (advance-IsSearch s h lt))
      ]

  pub search_loop-IsSearch :
      (fuel : ℕ) (s : Search)
      → IsSearch s
      → IsSearch (search_loop hash_index buf chunk_size chunk_bytes bufsize capacity feed fuel s)
  unfolding search_loop
  search_loop-IsSearch zero s h = h
  search_loop-IsSearch (suc fuel) s h = elim (Bool-cases (ltb s.p (chunk_size - minimum_match))) [
    | inl e ↦ rw e (search_loop-IsSearch fuel _ (step-IsSearch s h (ground arith)))
    | inr e ↦ rw e h
  ]
