-- ===== src/Rzip/Search/Ends.antt =====
-- The search loop ends: `p` may step back when a match is written, but `last_match` then moves on.
use lrzip.Common.{
  ℕ, zero, suc, ◌+◌, ◌-◌, ◌*◌, ◌^◌, ◌≤◌, ◌<◌, ◌≡◌, ◌⊎◌, refl, arith, ltb, ltb→lt, Bool, ◌&&◌, not,
  Bool-cases, inl, inr,
}
use lrzip.Rzip.Output.{Output}
use lrzip.Rzip.Match.{minimum_match}
use lrzip.Rzip.Table.{meets}
use lrzip.Rzip.Search.{
  Search, advance, best_at, improve, is_due, put_current, emit_if_due, feed_loop, feed_md5,
  consider, step, search_loop, search_fuel,
}
use lrzip.Rzip.Search.Step.{
  IsSearch, IsCurrent, improved, improved-IsSearch, due-IsCurrent, advance-IsSearch, step-IsSearch,
  insert_tag-positions,
}

mul_mono : (a b c : ℕ) → a ≤ b → a * c ≤ b * c
mul_mono a b c h = grind arith

falls_far :
    (e l l' p p' : ℕ)
    → l < l'
    → l' ≤ e
    → (e - l') * (e + 1) + (e - p') < (e - l) * (e + 1) + (e - p)
falls_far e l l' p p' h k = omega (arith, mul_mono (e - l' + 1) (e - l) (e + 1) (omega arith))

module _ (hash_index buf : ℕ → ℕ) (chunk_size chunk_bytes bufsize capacity : ℕ) (feed : Bool)
    (o : Output) (fits : chunk_size < 256 ^ chunk_bytes) where
  abbrev end_at : ℕ
  end_at = chunk_size - minimum_match

  -- Either `last_match` moves on, or it stays and `p` does not step back.
  abbrev Onward : Search → Search → Type 0
  Onward s s' = (s.last_match < s'.last_match) ⊎ ((s.last_match ≡ s'.last_match) × (s.p ≤ s'.p))

  feed_loop-positions :
      (fuel : ℕ) (s : Search)
      → let s' = feed_loop hash_index buf chunk_size chunk_bytes bufsize capacity feed fuel s in
        (s'.p ≡ s.p) × (s'.last_match ≡ s.last_match)
  unfolding feed_loop
  feed_loop-positions zero s = (refl, refl)
  feed_loop-positions (suc fuel) s =
      elim (Bool-cases (ltb s.cksum_limit chunk_size && ltb s.cksum_limit s.p)) [
        | inl e ↦ rw e (feed_loop-positions fuel _)
        | inr e ↦ rw e (refl, refl)
      ]

  feed_md5-positions :
      (s : Search)
      → let s' = feed_md5 hash_index buf chunk_size chunk_bytes bufsize capacity feed s in
        (s'.p ≡ s.p) × (s'.last_match ≡ s.last_match)
  unfolding feed_md5
  feed_md5-positions s = ground (arith, feed_loop-positions chunk_size s)

  emit_if_due-Onward :
      (s : Search)
      → IsSearch hash_index buf chunk_size chunk_bytes bufsize capacity feed o fits s
      → Onward s (emit_if_due hash_index buf chunk_size chunk_bytes bufsize capacity feed s)
  unfolding emit_if_due put_current
  emit_if_due-Onward s h =
      elim (Bool-cases (is_due hash_index buf chunk_size chunk_bytes bufsize capacity feed s)) [
        | inl e ↦
            let c : IsCurrent buf s.last_match end_at s.current =
              due-IsCurrent hash_index buf chunk_size chunk_bytes bufsize capacity feed o fits s h
                e in
            rw e (inl (omega (arith, c.long, c.starts)))
        | inr e ↦ rw e (inr (refl, omega arith))
      ]

  improved-positions :
      (s : Search)
      → let s' = improved hash_index buf chunk_size chunk_bytes bufsize capacity feed o fits s in
        (s'.p ≡ s.p) × (s'.last_match ≡ s.last_match)
  unfolding improved improve
  improved-positions s = ground (
    arith,
    insert_tag-positions hash_index buf chunk_size chunk_bytes bufsize capacity feed o fits
        (best_at hash_index buf chunk_size chunk_bytes bufsize capacity feed s) s,
  )

  consider-Onward :
      (s : Search)
      → IsSearch hash_index buf chunk_size chunk_bytes bufsize capacity feed o fits s
      → Onward s (consider hash_index buf chunk_size chunk_bytes bufsize capacity feed s)
  unfolding consider improved
  consider-Onward s h = ground (
    arith,
    improved-positions s,
    emit_if_due-Onward
        (improved hash_index buf chunk_size chunk_bytes bufsize capacity feed o fits s)
        (improved-IsSearch hash_index buf chunk_size chunk_bytes bufsize capacity feed o fits s h),
    feed_md5-positions (
        emit_if_due hash_index buf chunk_size chunk_bytes bufsize capacity feed
          (improved hash_index buf chunk_size chunk_bytes bufsize capacity feed o fits s)),
  )

  -- What is left to do: bytes behind the last match first, positions second.
  abbrev left : Search → ℕ
  left s = (end_at - s.last_match) * (end_at + 1) + (end_at - s.p)

  advanced :
      (s : Search)
      → let a = advance hash_index buf chunk_size chunk_bytes bufsize capacity feed s in
        (a.last_match ≡ s.last_match) × (a.p ≡ s.p + 1)
  unfolding advance
  advanced s = (refl, refl)

  step-Onward :
      (s : Search)
      → IsSearch hash_index buf chunk_size chunk_bytes bufsize capacity feed o fits s
      → s.p < end_at
      → let s' = step hash_index buf chunk_size chunk_bytes bufsize capacity feed s in
        (s.last_match < s'.last_match) ⊎ ((s.last_match ≡ s'.last_match) × (s.p < s'.p))
  unfolding step
  step-Onward s h lt =
      let a : Search = advance hash_index buf chunk_size chunk_bytes bufsize capacity feed s in
      let (same, on) = advanced s in
      elim (Bool-cases (not (meets a.t a.table.minimum_tag_mask))) [
        | inl e ↦ rw e (inr (omega arith, omega arith))
        | inr e ↦ rw e (
            ground (
              arith,
              consider-Onward a (
                  advance-IsSearch hash_index buf chunk_size chunk_bytes bufsize capacity feed o
                    fits s h lt),
            ))
      ]

  left-step :
      (s : Search)
      → IsSearch hash_index buf chunk_size chunk_bytes bufsize capacity feed o fits s
      → s.p < end_at
      → left (step hash_index buf chunk_size chunk_bytes bufsize capacity feed s) < left s
  left-step s h lt = ground (
    arith,
    step-Onward s h lt,
    next.bounded,
    next.ordered,
    falls_far end_at s.last_match s'.last_match s.p s'.p,
  )
    where
      s' : Search
      s' = step hash_index buf chunk_size chunk_bytes bufsize capacity feed s

      next : IsSearch hash_index buf chunk_size chunk_bytes bufsize capacity feed o fits s'
      next = step-IsSearch hash_index buf chunk_size chunk_bytes bufsize capacity feed o fits s h lt

  -- With rounds for all that is left, the loop ends by its test.
  search_loop_ends :
      (fuel : ℕ) (s : Search)
      → IsSearch hash_index buf chunk_size chunk_bytes bufsize capacity feed o fits s
      → left s < fuel
      → end_at ≤ (search_loop hash_index buf chunk_size chunk_bytes bufsize capacity feed fuel s).p
  unfolding search_loop
  search_loop_ends zero s h f = absurd (omega arith)
  search_loop_ends (suc fuel) s h f = elim (Bool-cases (ltb s.p end_at)) [
    | inl e ↦ rw e (
        search_loop_ends fuel _
          (step-IsSearch hash_index buf chunk_size chunk_bytes bufsize capacity feed o fits s h
            (ground arith))
          (omega (arith, left-step s h (ltb→lt _ _ e))))
    | inr e ↦ rw e (ground arith)
  ]

  pub search_fuel_enough :
      (s : Search)
      → IsSearch hash_index buf chunk_size chunk_bytes bufsize capacity feed o fits s
      → end_at
        ≤ (search_loop hash_index buf chunk_size chunk_bytes bufsize capacity feed
            (search_fuel hash_index buf chunk_size chunk_bytes bufsize capacity feed)
            s).p
  search_fuel_enough s h =
      search_loop_ends _ s h
        (omega (arith, mul_mono (end_at - s.last_match) end_at (end_at + 1) (omega arith)))
