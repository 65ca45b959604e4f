-- ===== src/Chain/Reader/Checks.antt =====
-- stream.c, `fill_buffer`: what passes its checks, whatever the archive's bytes are.
use lrzip.Common.{
  ℕ, zero, suc, ◌+◌, ◌*◌, ◌^◌, ◌≤◌, ◌<◌, ◌≡◌, ◌≢◌, ◌⊎◌, refl, ap, arith, true, false, ◌&&◌, Option,
  none, some, List, [], ◌∷◌, ◌++◌, length, drop, ltb, ◌==◌, if◌then◌else◌, ◌>>=◌, Bool-cases, inl,
  inr, length-drop, length-take,
}
use lrzip.Backend.Types.{CompressThread, UncompThread, ctype_none, ctype_bzip2}
use lrzip.Chain.Layout.{block_bytes}
use lrzip.Chain.Reader.{
  Limits, BlockHeader, read_block_header, size_ok, is_empty_block, header_ok, Fill, skip_empty,
  start, read_block, check_header, fill_another, follow, read_chain,
}
use lrzip.Chain.Reader.Follows.{read_block_header-block_bytes}

-- What a thread is started with.
pub record IsChecked (l : Limits) (body : List ℕ) (pos : ℕ) (u : UncompThread) (last_head : ℕ)
    : Type 0 where
  pub filled : (1 ≤ u.c_len) × (1 ≤ u.u_len)
  pub bytes : length u.s_buf ≡ u.c_len
  pub within : pos + (1 + l.chunk_bytes * 3) + u.c_len ≤ length body
  pub forward : (last_head ≡ 0) ⊎ (pos < last_head)
  pub known : (3 ≤ u.c_type) × (u.c_type ≤ 14)
  pub stored : u.c_type ≡ ctype_none → u.c_len ≡ u.u_len
  pub ram : (l.maxram ≡ 0) ⊎ ((u.c_len ≤ l.maxram) × (u.u_len ≤ l.maxram))
  pub bzip2 : u.c_type ≡ ctype_bzip2 → (u.u_len < 2 ^ 32) × (u.c_len < 2 ^ 32)

-- Where `fill_another` starts a thread, the checks have passed.
abbrev Started : Limits → List ℕ → ℕ → Option Fill → Type 0
Started l body pos (some (start u last_head total)) = IsChecked l body pos u last_head
Started l body pos other = Unit

module _ (l : Limits) (body : List ℕ) (pos total : ℕ) (h : BlockHeader)
    (ok : header_ok l pos total h ≡ true) where
  forward : (h.last_head ≡ 0) ⊎ (pos < h.last_head)
  unfolding header_ok
  forward = elim (Bool-cases (h.last_head == 0)) [
    | inl z ↦ inl (ground arith)
    | inr z ↦ inr (ground arith)
  ]

  ram : (l.maxram ≡ 0) ⊎ ((h.c_len ≤ l.maxram) × (h.u_len ≤ l.maxram))
  unfolding header_ok size_ok
  ram = elim (Bool-cases (l.maxram == 0)) [
    | inl z ↦ inl (ground arith)
    | inr z ↦ inr (ground arith, ground arith)
  ]

  read_block-Started : Started l body pos (read_block l.chunk_bytes body pos total h)
  unfolding header_ok
  read_block-Started =
      elim (Bool-cases (ltb (length (drop (pos + (1 + l.chunk_bytes * 3)) body)) h.c_len)) [
        | inl short ↦ rw short tt
        | inr enough ↦
            let room : h.c_len ≤ length (drop (pos + (1 + l.chunk_bytes * 3)) body) =
              ground arith in
            let one : 1 ≤ h.c_len = ground arith in
            let len = length-drop (pos + (1 + l.chunk_bytes * 3)) body in
            rw enough (record {
              filled = (ground arith, ground arith);
              bytes =
                  omega (arith, length-take h.c_len (drop (pos + (1 + l.chunk_bytes * 3)) body));
              within = omega arith;
              forward = forward;
              known = (ground arith, ground arith);
              stored = λ e. ground arith;
              ram = ram;
              bzip2 = λ e. (ground arith, ground arith);
            })
      ]

check_header-Started :
    (l : Limits) (body : List ℕ) (j pos total : ℕ) (h : BlockHeader)
    → Started l body pos (check_header l body j pos total h)
check_header-Started l body j pos total h = elim (Bool-cases (is_empty_block j h)) [
  | inl e ↦ rw e tt
  | inr e ↦ rw e (elim (Bool-cases (header_ok l pos total h)) [
    | inl ok ↦ rw ok (read_block-Started l body pos total h ok)
    | inr ok ↦ rw ok tt
  ])
]

parsed-Started :
    (l : Limits) (body : List ℕ) (j pos total : ℕ) (h : Option BlockHeader)
    → Started l body pos (h >>= λ k. check_header l body j pos total k)
parsed-Started l body j pos total none = tt
parsed-Started l body j pos total (some h) = check_header-Started l body j pos total h

fill_another-Started :
    (l : Limits) (body : List ℕ) (j pos total_read : ℕ)
    → Started l body pos (fill_another l body j pos total_read)
unfolding fill_another
fill_another-Started l body j pos total_read =
    parsed-Started l body j pos (total_read + (1 + l.chunk_bytes * 3))
      (read_block_header l.chunk_bytes body pos)

-- Whatever the bytes are, a block that `fill_another` starts a thread for is not empty, has all of
-- its bytes in the archive and a known type, and fits the limit on memory; a stored block has
-- equal lengths and one of bzip2 32-bit ones, and the next header is further on, or there is none.
pub fill_another-IsChecked :
    (l : Limits) (body : List ℕ) (j pos total_read : ℕ) (u : UncompThread) (last_head total : ℕ)
    → fill_another l body j pos total_read ≡ some (start u last_head total)
    → IsChecked l body pos u last_head
fill_another-IsChecked l body j pos total_read u last_head total e =
    rw e at (fill_another-Started l body j pos total_read)

-- `fill_another` refuses an empty block, as `compthread` writes one, unless it is of stream 1 and
-- the last: that of stream 0 whose control bytes fill its last buffer is refused.
pub empty_block_refused :
    (l : Limits) (body rest : List ℕ) (j pos total_read link : ℕ) (c : CompressThread)
    → drop pos body ≡ block_bytes l.chunk_bytes c link ++ rest
    → c.c_len ≡ 0
    → c.s_len ≡ 0
    → link < 256 ^ l.chunk_bytes
    → (j ≢ 1) ⊎ (link ≢ 0)
    → fill_another l body j pos total_read ≡ none
unfolding fill_another is_empty_block header_ok
empty_block_refused l body rest j pos total_read link c e hc hs fits other =
    let kept : (j == 1 && link == 0) ≡ false = elim other [
      | inl d ↦ ground arith
      | inr d ↦ ground arith
    ] in
    rw
      (
        read_block_header-block_bytes l.chunk_bytes pos link c body rest e (omega arith)
            (omega arith) fits,
        hc,
        hs,
        kept,
      )
      refl

follow_ext :
    (l : Limits) (body : List ℕ) (pos : ℕ) (f g : ℕ → ℕ → Option (List UncompThread))
    (r : Option Fill)
    → Started l body pos r
    → ((p total : ℕ) → pos < p → f p total ≡ g p total)
    → (r >>= follow f) ≡ (r >>= follow g)
follow_ext l body pos f g none st h = refl
follow_ext l body pos f g (some skip_empty) st h = refl
follow_ext l body pos f g (some (start u last_head total)) st h = elim st.forward [
  | inl z ↦ rw z refl
  | inr more ↦
      ap (λ t. if last_head == 0 then some (u ∷ []) else t >>= λ us. some (u ∷ us))
        (h last_head total more)
]

-- Past the end of the bytes there is no header.
past_end :
    (l : Limits) (body : List ℕ) (j pos total_read : ℕ)
    → length body ≤ pos
    → fill_another l body j pos total_read ≡ none
unfolding fill_another read_block_header
past_end l body j pos total_read h =
    let short : ltb (length (drop pos body)) (1 + l.chunk_bytes * 3) ≡ true =
      ground (arith, length-drop pos body) in
    rw short refl

-- From `pos`, as much fuel as there are bytes behind `pos` is enough for `read_chain`: more fuel
-- gives the same result, whatever the bytes and the limits are.
pub read_chain_fuel :
    (fuel more : ℕ) (l : Limits) (body : List ℕ) (j pos total_read : ℕ)
    → length body ≤ pos + fuel
    → read_chain (fuel + more) l body j pos total_read ≡ read_chain fuel l body j pos total_read
unfolding read_chain
read_chain_fuel zero zero l body j pos total_read h = refl
read_chain_fuel zero (suc more) l body j pos total_read h =
    let e : zero + suc more ≡ suc more = omega arith in
    rw (e, past_end l body j pos total_read (omega arith)) refl
read_chain_fuel (suc fuel) more l body j pos total_read h =
    let e : suc fuel + more ≡ suc (fuel + more) = omega arith in
    rw e (
      follow_ext l body pos (read_chain (fuel + more) l body j) (read_chain fuel l body j)
        (fill_another l body j pos total_read) (fill_another-Started l body j pos total_read)
        (λ p total less. read_chain_fuel fuel more l body j p total (omega arith)))
