-- ===== src/Rzip/Search/Digest.antt =====
-- The MD5 worker is given the chunk, each byte once and in order.
use lrzip.Common.{
  ℕ, zero, suc, ◌+◌, ◌-◌, ◌≤◌, ◌<◌, min, ◌≡◌, refl, sym, ap, ◌∙◌, arith, List, [], ◌∷◌, ◌++◌,
  concat, concat-append, append-nil, append_assoc, ltb, if◌then◌else◌, Bool, true, false, ◌&&◌,
  Bool-cases, inl, inr,
}
use lrzip.Common.Slice.{slice, slice-append}
use lrzip.Rzip.Output.{Output}
use lrzip.Rzip.Table.{Level, meets}
use lrzip.Rzip.Probe.{Best}
use lrzip.Rzip.Search.{
  Search, md5_queue, advance, count_probes, count_insert, clean_if_full, insert_tag, improve,
  is_due, put_current, emit_if_due, feed_loop, feed_md5, best_at, consider, step, search_loop,
  start, searched, md5_jobs, hash_search, end_of,
}

-- `md5_queue` cuts its bytes into buffers and loses none.
concat-md5_queue :
    (buf : ℕ → ℕ) (capacity fuel : ℕ) (jobs : List (List ℕ)) (offset len : ℕ)
    → 0 < capacity
    → len < fuel
    → concat (md5_queue buf capacity fuel jobs offset len) ≡ concat jobs ++ slice buf offset len
unfolding md5_queue
concat-md5_queue buf capacity zero jobs offset len h f = absurd (omega arith)
concat-md5_queue buf capacity (suc fuel) jobs offset len h f = elim (Bool-cases (ltb 0 len)) [
  | inl e ↦ rw e (
      queued (
        concat-md5_queue buf capacity fuel (jobs ++ (slice buf offset n ∷ [])) (offset + n)
          (len - n) h (ground arith)))
  | inr e ↦ let z : len ≡ 0 = ground arith in rw (e, z) (sym (append-nil (concat jobs)))
]
  where
    n : ℕ
    n = min len capacity

    queued :
        concat
            (md5_queue buf capacity fuel (jobs ++ (slice buf offset n ∷ [])) (offset + n) (len - n))
          ≡ concat (jobs ++ (slice buf offset n ∷ [])) ++ slice buf (offset + n) (len - n)
        → concat
            (md5_queue buf capacity fuel (jobs ++ (slice buf offset n ∷ [])) (offset + n) (len - n))
          ≡ concat jobs ++ slice buf offset len
    queued e =
        let k : n + (len - n) ≡ len = omega arith in
        e
        ∙ ap (λ t. t ++ slice buf (offset + n) (len - n))
            (concat-append jobs (slice buf offset n ∷ [])
              ∙ ap (λ t. concat jobs ++ t) (append-nil (slice buf offset n)))
        ∙ append_assoc (concat jobs) (slice buf offset n) (slice buf (offset + n) (len - n))
        ∙ ap (λ t. concat jobs ++ t)
            (slice-append buf offset n (len - n) (offset + n) refl ∙ ap (slice buf offset) k)

module _ (hash_index buf : ℕ → ℕ) (chunk_size chunk_bytes bufsize capacity : ℕ) (feed : Bool)
    (some_room : 0 < capacity) where
  -- The worker has been given the bytes below `cksum_limit`, and none where the chunk is not summed
  -- here.
  record IsFed (s : Search) : Type 0 where
    fed : concat s.jobs ≡ slice buf 0 s.cksum_limit
    limit : s.cksum_limit ≤ chunk_size
    idle : feed ≡ false → s.cksum_limit ≡ 0

  -- A step that keeps both fields.
  kept : {s s' : Search} → s'.jobs ≡ s.jobs → s'.cksum_limit ≡ s.cksum_limit → IsFed s → IsFed s'
  kept j c h = record {
    fed = ap concat j ∙ h.fed ∙ ap (slice buf 0) (sym c);
    limit = omega (arith, h.limit);
    idle = λ e. c ∙ h.idle e;
  }

  insert_tag-kept :
      (s : Search)
      → ((insert_tag hash_index buf chunk_size chunk_bytes bufsize capacity feed s).jobs ≡ s.jobs)
        × ((insert_tag hash_index buf chunk_size chunk_bytes bufsize capacity feed s).cksum_limit
            ≡ s.cksum_limit)
  unfolding insert_tag clean_if_full count_insert
  insert_tag-kept s = ground arith

  improve-kept :
      (b : Best) (s : Search)
      → ((improve hash_index buf chunk_size chunk_bytes bufsize capacity feed b s).jobs ≡ s.jobs)
        × ((improve hash_index buf chunk_size chunk_bytes bufsize capacity feed b s).cksum_limit
            ≡ s.cksum_limit)
  unfolding improve
  improve-kept b s = ground arith

  emit_if_due-kept :
      (s : Search)
      → ((emit_if_due hash_index buf chunk_size chunk_bytes bufsize capacity feed s).jobs ≡ s.jobs)
        × ((emit_if_due hash_index buf chunk_size chunk_bytes bufsize capacity feed s).cksum_limit
            ≡ s.cksum_limit)
  unfolding emit_if_due put_current
  emit_if_due-kept s =
      elim (Bool-cases (is_due hash_index buf chunk_size chunk_bytes bufsize capacity feed s)) [
        | inl e ↦ rw e (refl, refl)
        | inr e ↦ rw e (refl, refl)
      ]

  -- One buffer more.
  feed_once :
      (on : feed ≡ true) (s : Search)
      → s.cksum_limit < chunk_size
      → IsFed s
      → IsFed (record s {
        jobs =
            md5_queue buf capacity
              (suc (min capacity (chunk_size - s.cksum_limit)))
              s.jobs
              s.cksum_limit
              (min capacity (chunk_size - s.cksum_limit));
        cksum_limit = s.cksum_limit + min capacity (chunk_size - s.cksum_limit);
      })
  feed_once on s lt h =
      let n = min capacity (chunk_size - s.cksum_limit) in
      record {
        fed =
            concat-md5_queue buf capacity (suc n) s.jobs s.cksum_limit n some_room (omega arith)
            ∙ ap (λ t. t ++ slice buf s.cksum_limit n) h.fed
            ∙ slice-append buf 0 s.cksum_limit n s.cksum_limit (omega arith);
        limit = omega arith;
        idle = λ off. absurd (true≢false (sym on ∙ off));
      }
    where
      true≢false : true ≡ false → ⊥
      true≢false e = ground arith

  feed_loop-IsFed :
      (fuel : ℕ) (on : feed ≡ true) (s : Search)
      → IsFed s
      → IsFed (feed_loop hash_index buf chunk_size chunk_bytes bufsize capacity feed fuel s)
  unfolding feed_loop
  feed_loop-IsFed zero on s h = h
  feed_loop-IsFed (suc fuel) on s h =
      elim (Bool-cases (ltb s.cksum_limit chunk_size && ltb s.cksum_limit s.p)) [
        | inl e ↦ rw e (feed_loop-IsFed fuel on _ (feed_once on s (ground arith) h))
        | inr e ↦ rw e h
      ]

  feed_md5-IsFed :
      (s : Search)
      → IsFed s
      → IsFed (feed_md5 hash_index buf chunk_size chunk_bytes bufsize capacity feed s)
  unfolding feed_md5
  feed_md5-IsFed s h = elim (Bool-cases feed) [
    | inl on ↦ ite-IsFed feed _ s on (feed_loop-IsFed chunk_size on s h)
    | inr off ↦ ite_off feed _ s off h
  ]
    where
      ite-IsFed : (b : Bool) (x y : Search) → b ≡ true → IsFed x → IsFed (if b then x else y)
      ite-IsFed true x y e g = g
      ite-IsFed false x y e g = absurd (ground arith)

      ite_off : (b : Bool) (x y : Search) → b ≡ false → IsFed y → IsFed (if b then x else y)
      ite_off true x y e g = absurd (ground arith)
      ite_off false x y e g = g

  consider-IsFed :
      (s : Search)
      → IsFed s
      → IsFed (consider hash_index buf chunk_size chunk_bytes bufsize capacity feed s)
  unfolding consider count_probes
  consider-IsFed s h = feed_md5-IsFed _ (
      kept {s = improved} ((emit_if_due-kept improved).0) ((emit_if_due-kept improved).1) (
        kept {s = inserted} {s' = improved} ((improve-kept b inserted).0)
          ((improve-kept b inserted).1)
          (kept {s = counted} {s' = inserted} ((insert_tag-kept counted).0)
            ((insert_tag-kept counted).1) (kept {s = s} {s' = counted} refl refl h))))
    where
      b : Best
      b = best_at hash_index buf chunk_size chunk_bytes bufsize capacity feed s

      counted : Search
      counted = count_probes hash_index buf chunk_size chunk_bytes bufsize capacity feed b s

      inserted : Search
      inserted = insert_tag hash_index buf chunk_size chunk_bytes bufsize capacity feed counted

      improved : Search
      improved = improve hash_index buf chunk_size chunk_bytes bufsize capacity feed b inserted

  advance-IsFed :
      (s : Search)
      → IsFed s
      → IsFed (advance hash_index buf chunk_size chunk_bytes bufsize capacity feed s)
  unfolding advance
  advance-IsFed s h = kept {s = s} refl refl h

  step-IsFed :
      (s : Search)
      → IsFed s
      → IsFed (step hash_index buf chunk_size chunk_bytes bufsize capacity feed s)
  unfolding step
  step-IsFed s h = elim (Bool-cases (meets a.t a.table.minimum_tag_mask)) [
    | inl e ↦ rw e (consider-IsFed a (advance-IsFed s h))
    | inr e ↦ rw e (advance-IsFed s h)
  ]
    where
      a : Search
      a = advance hash_index buf chunk_size chunk_bytes bufsize capacity feed s

  search_loop-IsFed :
      (fuel : ℕ) (s : Search)
      → IsFed s
      → IsFed (search_loop hash_index buf chunk_size chunk_bytes bufsize capacity feed fuel s)
  unfolding search_loop
  search_loop-IsFed zero s h = h
  search_loop-IsFed (suc fuel) s h =
      elim (Bool-cases
        (ltb s.p (end_of hash_index buf chunk_size chunk_bytes bufsize capacity feed))) [
          | inl e ↦ rw e (search_loop-IsFed fuel _ (step-IsFed s h))
          | inr e ↦ rw e h
        ]

  md5_jobs-fed :
      (s : Search)
      → IsFed s
      → concat (md5_jobs hash_index buf chunk_size chunk_bytes bufsize capacity feed s)
        ≡ (if feed then slice buf 0 chunk_size else [])
  unfolding md5_jobs
  md5_jobs-fed s h = elim (Bool-cases feed) [
    | inl on ↦ elim (Bool-cases (ltb s.cksum_limit chunk_size)) [
      | inl e ↦
          let whole : s.cksum_limit + (chunk_size - s.cksum_limit) ≡ chunk_size =
            omega (arith, h.limit) in
          rw (on, e)
            (concat-md5_queue buf capacity _ s.jobs s.cksum_limit (chunk_size - s.cksum_limit)
                some_room (omega arith)
              ∙ ap (λ t. t ++ slice buf s.cksum_limit (chunk_size - s.cksum_limit)) h.fed
              ∙ slice-append buf 0 s.cksum_limit (chunk_size - s.cksum_limit) s.cksum_limit
                  (omega arith)
              ∙ ap (slice buf 0) whole)
      | inr e ↦
          let all : s.cksum_limit ≡ chunk_size = ground (arith, h.limit) in
          rw (on, e) (h.fed ∙ ap (slice buf 0) all)
    ]
    | inr off ↦ rw off (h.fed ∙ ap (slice buf 0) (h.idle off))
  ]

  -- With an MD5 buffer of one byte at least, the buffers that `hash_search` gives to the worker
  -- make up exactly the chunk where it is summed here, and no bytes where it is not.
  pub hash_search-md5 :
      (level : Level) (victim_round : ℕ) (o : Output)
      → concat
          (hash_search hash_index buf chunk_size chunk_bytes bufsize capacity feed level
            victim_round o).1
        ≡ (if feed then slice buf 0 chunk_size else [])
  unfolding hash_search searched start
  hash_search-md5 level victim_round o =
      md5_jobs-fed _
        (search_loop-IsFed _ _ (record { fed = refl; limit = omega arith; idle = λ _. refl }))
