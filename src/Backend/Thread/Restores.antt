-- ===== src/Backend/Thread/Restores.antt =====
-- stream.c, `compthread` and `ucompthread`: the blocks of a job come back.
use lrzip.Common.{
  ℕ, ◌≤◌, ◌<◌, ◌^◌, ◌≡◌, refl, ap, ap₂, arith, true, false, not, ◌&&◌, Option, none, some, List, [],
  ◌∷◌, length, map, take-all, All, leb, ◌==◌, ◌>>=◌, Bool-cases, inl, inr, ==_refl,
}
use lrzip.Memory.{round_up_page}
use lrzip.Backend.Types.{
  Libs, Malloc, Settings, SharedControl, Backend, no_compress, lzma, lzo, bzip2, gzip, zpaq,
  CompressThread, Ret, ctype_none,
}
use lrzip.Backend.Uncomp.{ucompress}
use lrzip.Backend.Packed.{Inverse, IsBlock, as_stored, IsPacked, Serves}
use lrzip.Backend.Restore.{
  zpaq_compress_buf-Outcome, bzip2_compress_buf-Outcome, gzip_compress_buf-Outcome,
  lzo_compress_buf-Outcome,
}
use lrzip.Backend.Restore.Lzma.{IsMode, lzma_compress_buf-Compresses}
use lrzip.Backend.Shared.{
  CoversProps-trans, IsShared, Grows, SameProps-refl, Compresses, SameProps-Compresses, Grows-trans,
  SameProps-Grows, zpaq-SameProps, bzip2-SameProps, gzip-SameProps, lzo-SameProps,
}
use lrzip.Backend.Thread.{
  new_thread, default_lclppb, compress_buf, attempt, compress_block, compress_blocks,
}

-- A block as it is written, which the reader turns into `b`: what `fill_buffer` asks of its header,
-- and what `ucompthread` makes of its bytes.
pub record IsDone (l : Libs) (c : SharedControl) (b : List ℕ) (cti : CompressThread) : Type 0 where
  pub s_len : cti.s_len ≡ length b
  pub len : cti.c_len ≡ length cti.s_buf
  pub filled : 1 ≤ length b → 1 ≤ cti.c_len
  pub no_longer : cti.c_len ≤ length b
  pub from : 3 ≤ cti.c_type
  pub upto : cti.c_type ≤ 14
  pub stored : cti.c_type ≡ ctype_none → cti.c_len ≡ length b
  pub restores :
      (malloc : Malloc) (page_size : ℕ) (q : List ℕ)
      → malloc (round_up_page page_size (length b)) ≡ true
      → Serves q c
      → ucompress l malloc page_size q (as_stored cti) ≡ some b

stored-IsDone :
    (l : Libs) (c : SharedControl) (cti : CompressThread) → IsBlock cti → IsDone l c cti.s_buf cti
unfolding ucompress
stored-IsDone l c cti block = record {
  s_len = block.s_len;
  len = block.c_len;
  filled = λ h. omega (arith, block.c_len);
  no_longer = omega (arith, block.c_len);
  from = omega (arith, block.c_type);
  upto = omega (arith, block.c_type);
  stored = λ e. block.c_len;
  restores = λ malloc page_size q m h.
      let t : (cti.c_type == ctype_none) ≡ true = ==_refl _ _ block.c_type in
      rw (t, block.s_len) (ap some (take-all (length cti.s_buf) cti.s_buf (omega arith)));
}

packed-IsDone :
    (l : Libs) (c : SharedControl) (b : List ℕ) (cti : CompressThread)
    → IsPacked l c b cti
    → IsDone l c b cti
packed-IsDone l c b cti p = record {
  s_len = p.s_len;
  len = p.len;
  filled = λ h. p.filled;
  no_longer = omega (arith, p.smaller);
  from = omega (arith, p.from);
  upto = p.upto;
  stored = λ e. absurd (omega (arith, p.from, e));
  restores = λ malloc page_size q m h. rw (p.len, p.s_len) (p.restores malloc page_size q m h);
}

-- What is published later still serves the block.
IsDone-Grows :
    (l : Libs) (c d : SharedControl) (b : List ℕ) (cti : CompressThread)
    → Grows c d
    → IsDone l c b cti
    → IsDone l d b cti
IsDone-Grows l c d b cti g h = record {
  s_len = h.s_len;
  len = h.len;
  filled = h.filled;
  no_longer = h.no_longer;
  from = h.from;
  upto = h.upto;
  stored = h.stored;
  restores = λ malloc page_size q m k.
      h.restores malloc page_size q m (λ e. CoversProps-trans (g.covers e) (k (g.set e)));
}

Compresses-IsDone :
    (l : Libs) (c : SharedControl) (cti : CompressThread) (r : Ret)
    → IsBlock cti
    → Compresses l c cti r
    → IsDone l r.control cti.s_buf r.cti
Compresses-IsDone l c cti r block h = elim h.outcome [
  | inl e ↦ rw e (stored-IsDone l r.control cti block)
  | inr (ok, p) ↦ packed-IsDone l r.control cti.s_buf r.cti p
]

-- An attempt that fails leaves the block as it was.
failed_kept :
    {l : Libs} {c : SharedControl} {cti : CompressThread} {r : Ret}
    → Compresses l c cti r
    → r.ok ≡ false
    → r.cti ≡ cti
failed_kept h e = elim h.outcome [ inl same ↦ same | inr (ok, p) ↦ absurd (cc) ]

-- Before the first publication the properties may be anything.
default_lclppb-Grows :
    (s : Settings) (k : Backend) (c : SharedControl)
    → IsShared c
    → IsShared (default_lclppb s k c) × Grows c (default_lclppb s k c)
unfolding default_lclppb
default_lclppb-Grows s no_compress c sh = (sh, SameProps-Grows (SameProps-refl c))
default_lclppb-Grows s lzo c sh = (sh, SameProps-Grows (SameProps-refl c))
default_lclppb-Grows s bzip2 c sh = (sh, SameProps-Grows (SameProps-refl c))
default_lclppb-Grows s gzip c sh = (sh, SameProps-Grows (SameProps-refl c))
default_lclppb-Grows s zpaq c sh = (sh, SameProps-Grows (SameProps-refl c))
default_lclppb-Grows s lzma c sh = elim (Bool-cases (s.tmp_outbuf && not c.lzma_prop_set)) [
  | inl e ↦
      let unset : c.lzma_prop_set ≡ false = ground arith in
      simp e
        (record { lclppb = λ q. absurd (cc) }, record { set = λ q. q; covers = λ q. absurd (cc) })
  | inr e ↦ simp e (sh, SameProps-Grows (SameProps-refl c))
]

module _ (l : Libs) (s : Settings) (inv : Inverse l) (mode : IsMode s.filter_mode) where
  compress_buf-Compresses :
      (k : Backend) (malloc : Malloc) (c : SharedControl) (cti : CompressThread)
      → IsBlock cti
      → length cti.s_buf < 2 ^ 32
      → IsShared c
      → Compresses l c cti (compress_buf l s k malloc c cti)
  unfolding compress_buf
  compress_buf-Compresses no_compress malloc c cti block small sh =
      SameProps-Compresses l c cti _ sh (inl refl) (SameProps-refl c)
  compress_buf-Compresses lzma malloc c cti block small sh =
      lzma_compress_buf-Compresses l malloc s inv cti block c mode small sh
  compress_buf-Compresses lzo malloc c cti block small sh =
      SameProps-Compresses l c cti _ sh (lzo_compress_buf-Outcome l malloc s inv cti block c)
        (lzo-SameProps l malloc s c cti)
  compress_buf-Compresses bzip2 malloc c cti block small sh =
      SameProps-Compresses l c cti _ sh
        (bzip2_compress_buf-Outcome l malloc s inv cti block c small)
        (bzip2-SameProps l malloc s c cti)
  compress_buf-Compresses gzip malloc c cti block small sh =
      SameProps-Compresses l c cti _ sh (gzip_compress_buf-Outcome l malloc s inv cti block c)
        (gzip-SameProps l malloc s c cti)
  compress_buf-Compresses zpaq malloc c cti block small sh =
      SameProps-Compresses l c cti _ sh (zpaq_compress_buf-Outcome l malloc s inv cti block c)
        (zpaq-SameProps l malloc s c cti)

  attempt-Compresses :
      (malloc : Malloc) (c : SharedControl) (cti : CompressThread)
      → IsBlock cti
      → length cti.s_buf < 2 ^ 32
      → IsShared c
      → Compresses l c cti (attempt l s malloc c cti)
  unfolding attempt
  attempt-Compresses malloc c cti block small sh = elim (Bool-cases (leb 64 cti.c_len)) [
    | inl e ↦ rw e (compress_buf-Compresses s.backend malloc c cti block small sh)
    | inr e ↦ rw e (SameProps-Compresses l c cti _ sh (inl refl) (SameProps-refl c))
  ]

  -- A block that is compressed or left, and what the threads then share.
  abbrev pub LeavesBlock : SharedControl → List ℕ → Option (CompressThread × SharedControl) → Type 0
  LeavesBlock c b none = Unit
  LeavesBlock c b (some (cti, d)) = IsDone l d b cti × IsShared d × Grows c d

  compress_block-LeavesBlock :
      (parallel serial : Malloc) (c : SharedControl) (b : List ℕ)
      → length b < 2 ^ 32
      → IsShared c
      → LeavesBlock c b (compress_block l s parallel serial c b)
  unfolding compress_block
  compress_block-LeavesBlock parallel serial c b small sh =
      let block : IsBlock (new_thread b) = record { s_len = refl; c_len = refl; c_type = refl } in
      let (sh0, g0) = default_lclppb-Grows s s.backend c sh in
      let first = attempt l s parallel (default_lclppb s s.backend c) (new_thread b) in
      let one = attempt-Compresses parallel _ (new_thread b) block small sh0 in
      elim (Bool-cases first.ok) [
        | inl e ↦ rw e (
          Compresses-IsDone l _ (new_thread b) first block one,
          one.shared,
          Grows-trans g0 one.grows,
        )
        | inr e ↦
            let second = attempt l s serial first.control (new_thread b) in
            let two =
              attempt-Compresses serial first.control (new_thread b) block small one.shared in
            rw (e, failed_kept one e)
              (elim (Bool-cases second.ok) [
                | inl f ↦ rw f (
                  Compresses-IsDone l _ (new_thread b) second block two,
                  two.shared,
                  Grows-trans (Grows-trans g0 one.grows) two.grows,
                )
                | inr f ↦ rw f tt
              ])
      ]

-- Each block of a job is written so that the reader restores it.
pub data AllDone (l : Libs) (c : SharedControl) : List (List ℕ) → List CompressThread → Type 0 where
  all_nil : AllDone l c [] []
  all_cons :
      {b : List ℕ} {bs : List (List ℕ)} {cti : CompressThread} {ctis : List CompressThread}
      → IsDone l c b cti
      → AllDone l c bs ctis
      → AllDone l c (b ∷ bs) (cti ∷ ctis)

pub AllDone-restores :
    {l : Libs} {c : SharedControl} {bs : List (List ℕ)} {ctis : List CompressThread}
    (malloc : Malloc) (page_size : ℕ) (q : List ℕ)
    → All (λ b. malloc (round_up_page page_size (length b)) ≡ true) bs
    → Serves q c
    → AllDone l c bs ctis
    → map (λ cti. ucompress l malloc page_size q (as_stored cti)) ctis ≡ map some bs
AllDone-restores malloc page_size q m h all_nil = refl
AllDone-restores malloc page_size q m h (all_cons d ds) =
    ap₂ ◌∷◌ (d.restores malloc page_size q m.0 h) (AllDone-restores malloc page_size q m.1 h ds)

module _ (l : Libs) (s : Settings) (inv : Inverse l) (mode : IsMode s.filter_mode) where
  abbrev pub LeavesBlocks :
      SharedControl → List (List ℕ) → Option (List CompressThread × SharedControl) → Type 0
  LeavesBlocks c bs none = Unit
  LeavesBlocks c bs (some (ctis, d)) = AllDone l d bs ctis × IsShared d × Grows c d

  -- One more block before those that are done.
  prepend :
      (c d : SharedControl) (b : List ℕ) (bs : List (List ℕ)) (cti : CompressThread)
      (r : Option (List CompressThread × SharedControl))
      → IsDone l d b cti
      → Grows c d
      → LeavesBlocks d bs r
      → LeavesBlocks c (b ∷ bs) (r >>= λ (ctis, e). some (cti ∷ ctis, e))
  prepend c d b bs cti none h g k = tt
  prepend c d b bs cti (some (ctis, e)) h g (all, sh, g') =
      (all_cons (IsDone-Grows l d e b cti g' h) all, sh, Grows-trans g g')

  head_block :
      (parallel serial : Malloc) (c : SharedControl) (b : List ℕ) (bs : List (List ℕ))
      (r : Option (CompressThread × SharedControl))
      → LeavesBlock l s inv mode c b r
      → ((d : SharedControl)
          → IsShared d
          → LeavesBlocks d bs (compress_blocks l s parallel serial d bs))
      → LeavesBlocks c (b ∷ bs) (
          r >>= λ (cti, d).
          compress_blocks l s parallel serial d bs >>= λ (ctis, e). some (cti ∷ ctis, e))
  head_block parallel serial c b bs none h ih = tt
  head_block parallel serial c b bs (some (cti, d)) (done, sh, g) ih =
      prepend c d b bs cti (compress_blocks l s parallel serial d bs) done g (ih d sh)

  pub compress_blocks-LeavesBlocks :
      (parallel serial : Malloc) (c : SharedControl) (bs : List (List ℕ))
      → All (λ b. length b < 2 ^ 32) bs
      → IsShared c
      → LeavesBlocks c bs (compress_blocks l s parallel serial c bs)
  unfolding compress_blocks
  compress_blocks-LeavesBlocks parallel serial c [] small sh =
      (all_nil, sh, SameProps-Grows (SameProps-refl c))
  compress_blocks-LeavesBlocks parallel serial c (b ∷ bs) small sh =
      head_block parallel serial c b bs (compress_block l s parallel serial c b)
        (compress_block-LeavesBlock l s inv mode parallel serial c b small.0 sh)
        (λ d sh'. compress_blocks-LeavesBlocks parallel serial d bs small.1 sh')

-- Each block comes back from its thread's result, whatever the back end, the filter, the memory
-- and the attempts: where the libraries restore what they compress, the filter mode is a known
-- one, the blocks are below 4 GiB, the properties set at first have the default lc, lp and pb, and
-- the threads succeed, `ucompress` with memory and properties that cover the published ones
-- returns each block.
pub compress_blocks-ucompress :
    (l : Libs) (s : Settings) (parallel serial malloc : Malloc) (page_size : ℕ) (q : List ℕ)
    (c d : SharedControl) (bs : List (List ℕ)) (ctis : List CompressThread)
    → Inverse l
    → IsMode s.filter_mode
    → All (λ b. length b < 2 ^ 32) bs
    → IsShared c
    → compress_blocks l s parallel serial c bs ≡ some (ctis, d)
    → All (λ b. malloc (round_up_page page_size (length b)) ≡ true) bs
    → Serves q d
    → map (λ cti. ucompress l malloc page_size q (as_stored cti)) ctis ≡ map some bs
compress_blocks-ucompress l s parallel serial malloc page_size q c d bs ctis inv mode small sh e m
      h =
    let r = rw e at (compress_blocks-LeavesBlocks l s inv mode parallel serial c bs small sh) in
    AllDone-restores malloc page_size q m h r.0
