-- ===== src/Rzip/Probe.antt =====
-- rzip.c, `find_best_match`: the walk over the slots of a tag, and the best match that it meets.
use lrzip.Common.{
  ℕ, zero, suc, ◌+◌, ◌-◌, ◌*◌, ◌≤◌, ◌<◌, ◌≢◌, refl, arith, ◌==◌, if◌then◌else◌, Bool-cases, inl,
  inr,
}
use lrzip.Rzip.Match.{minimum_match, match_len}
use lrzip.Rzip.Match.Bounds.{Agree, IsMatch, match_len-IsMatch}
use lrzip.Rzip.Table.{Table, Entry, empty_hash, hash_get, primary_hash, next_slot}

-- The variables of `find_best_match` that it returns: `length`, `*offset`, `*reverse`, and what it
-- adds to the statistics.
pub record Best : Type 0 where
  pub length : ℕ
  pub offset : ℕ
  pub reverse : ℕ
  pub tag_hits : ℕ
  pub tag_misses : ℕ

abbrev pub no_match : Best
no_match = record { length = 0; offset = 0; reverse = 0; tag_hits = 0; tag_misses = 0 }

module _ (buf : ℕ → ℕ) (last_match p end : ℕ) where
  -- An entry with the tag: a longer match replaces the best one.
  unfoldable pub try_entry : Best → ℕ → Best
  try_entry b he_off =
      let m = match_len buf last_match p he_off end b.length in
      if m.0 == 0 then record b { tag_misses = b.tag_misses + 1 } else record b {
        length = m.0;
        offset = he_off - m.1;
        reverse = m.1;
        tag_hits = b.tag_hits + 1;
      }

  -- `left` counts down from `max_probes`, `tags` from `max_tag`.
  unfoldable pub probe_loop : ℕ → Table → ℕ → ℕ → ℕ → Best → Best
  probe_loop zero tb t h tags b = b
  probe_loop (suc left) tb t h tags b =
      let he = hash_get tb h in
      let on_tag = probe_loop left tb t (next_slot tb h) (tags - 1) (try_entry b he.offset) in
      let on_other = probe_loop left tb t (next_slot tb h) tags b in
      if empty_hash he then b else if t == he.t then (if tags == 0 then b else on_tag) else on_other

  unfoldable pub find_best_match : Table → ℕ → Best
  unfolding probe_loop
  find_best_match tb t =
      probe_loop (tb.max_chain_len * 4 + 16) tb t (primary_hash tb t) tb.max_chain_len no_match

  -- What is found is nothing, or a match that starts after the last one and ends before `end`.
  pub record IsBest (len offset reverse : ℕ) : Type 0 where
    pub long : minimum_match ≤ len
    pub starts : last_match + reverse ≤ p
    pub ends : p - reverse + len ≤ end
    pub reaches : p ≤ p - reverse + len
    pub earlier : offset < p - reverse
    pub agree : Agree buf (p - reverse) offset len

  abbrev pub Found : Best → Type 0
  Found b = b.length ≢ 0 → IsBest b.length b.offset b.reverse

  module _ (after_last : last_match ≤ p) (before_end : p ≤ end) where
    try_entry-Found : (b : Best) (he_off : ℕ) → Found b → Found (try_entry b he_off)
    unfolding try_entry
    try_entry-Found b he_off h = elim (Bool-cases (m.0 == 0)) [
      | inl e ↦ rw e h
      | inr e ↦ rw e (λ ne.
          of_match
            (match_len-IsMatch buf last_match p he_off end b.length after_last before_end ne))
    ]
      where
        m : ℕ × ℕ
        m = match_len buf last_match p he_off end b.length

        of_match :
            IsMatch buf last_match p he_off end b.length m.0 m.1 → IsBest m.0 (he_off - m.1) m.1
        of_match i = record {
          long = i.long;
          starts = i.rev_target;
          ends = i.inside;
          reaches = i.reaches;
          earlier = omega (arith, i.earlier, i.rev_source, i.rev_target);
          agree = i.agree;
        }

    probe_loop-Found :
        (left : ℕ) (tb : Table) (t h tags : ℕ) (b : Best)
        → Found b
        → Found (probe_loop left tb t h tags b)
    unfolding probe_loop
    probe_loop-Found zero tb t h tags b f = f
    probe_loop-Found (suc left) tb t h tags b f = elim (Bool-cases (empty_hash he)) [
      | inl e ↦ rw e f
      | inr e ↦ elim (Bool-cases (t == he.t)) [
        | inl same ↦ elim (Bool-cases (tags == 0)) [
          | inl z ↦ rw (e, same, z) f
          | inr nz ↦
              rw (e, same, nz)
                (probe_loop-Found left tb t (next_slot tb h) (tags - 1) _
                  (try_entry-Found b he.offset f))
        ]
        | inr other ↦ rw (e, other) (probe_loop-Found left tb t (next_slot tb h) tags b f)
      ]
    ]
      where
        he : Entry
        he = hash_get tb h

    -- Where the last match ends at or before `p`, and `p` is not behind `end`, a non-zero length
    -- that `find_best_match` returns is that of a match: long enough, behind the last one, inside
    -- the chunk, at an earlier offset, with the same bytes there.
    pub find_best_match-Found : (tb : Table) (t : ℕ) → Found (find_best_match tb t)
    unfolding find_best_match
    find_best_match-Found tb t = probe_loop-Found _ tb t _ _ no_match (λ ne. absurd (ne refl))
