-- ===== src/Archive/RoundTrip.antt =====
-- A chunk's buffers come back from the archive.
use lrzip.Common.{
  ℕ, ◌^◌, ◌≤◌, ◌<◌, ◌≡◌, refl, sym, ap, ◌∙◌, arith, Bool, true, false, ◌||◌, Option, none, some,
  List, [], ◌∷◌, length, map, ◌==◌, ◌>>=◌, All, Bool-cases, inl, inr,
}
use mathlib.Core.Path.{subst}
use lrzip.Memory.{round_up_page}
use lrzip.Backend.Types.{Libs, Malloc, Settings, SharedControl, CompressThread}
use lrzip.Backend.Uncomp.{ucompress}
use lrzip.Backend.Packed.{Inverse, Serves}
use lrzip.Backend.Restore.Lzma.{IsMode}
use lrzip.Backend.Shared.{IsShared}
use lrzip.Backend.Thread.{compress_blocks}
use lrzip.Backend.Thread.Restores.{
  IsDone, AllDone, all_nil, all_cons, LeavesBlocks, compress_blocks-LeavesBlocks,
}
use lrzip.Chain.{start_chunk, write_blocks}
use lrzip.Chain.Layout.{occurs, IsSized}
use lrzip.Chain.Reader.{Limits}
use lrzip.Chain.Reader.Follows.{blocks_of, IsReadable, Bounds}
use lrzip.Chain.Reader.Order.{delivered, AreReadable}
use lrzip.Chain.RoundTrip.{write_blocks-read_streams}
use lrzip.Chain.RoundTrip.{write_blocks-read_streams}
use lrzip.Stream.Read.{filled}
use lrzip.Archive.{
  Buffer, tagged, archived, write_chunk, ucompress_all, read_chunk, buffers_of, AreFilled, IsBuffer,
}

no_more :
    {l : Libs} {d : SharedControl} (bs : List (List ℕ)) (cs : List CompressThread)
    → AllDone l d bs cs
    → bs ≡ []
    → cs ≡ []
no_more [] [] g e = refl
no_more [] (c ∷ cs) g e = elim g [ ]
no_more (b ∷ bs) [] g e = elim g [ ]
no_more (b ∷ bs) (c ∷ cs) g e = absurd (cc)

module _ {l : Libs} {d : SharedControl} where
  AllDone-stream :
      (j : ℕ) (bufs : List Buffer) (ctis : List CompressThread)
      → AllDone l d (map (λ b. b.1) bufs) ctis
      → AllDone l d (buffers_of j bufs) (blocks_of j (tagged bufs ctis))
  AllDone-stream j [] (c ∷ ctis) x = elim x [ ]
  AllDone-stream j ((k, b) ∷ bufs) [] x = elim x [ ]
  AllDone-stream j [] [] all_nil = all_nil
  AllDone-stream j ((k, b) ∷ bufs) (c ∷ ctis) (all_cons h hs) = elim (Bool-cases (k == j)) [
    | inl e ↦ rw e (all_cons h (AllDone-stream j bufs ctis hs))
    | inr e ↦ rw e (AllDone-stream j bufs ctis hs)
  ]

  tagged-IsSized :
      (w : ℕ) (bufs : List Buffer) (ctis : List CompressThread)
      → AllDone l d (map (λ b. b.1) bufs) ctis
      → All (IsSized w) (tagged bufs ctis)
  tagged-IsSized w [] (c ∷ ctis) x = elim x [ ]
  tagged-IsSized w ((k, b) ∷ bufs) [] x = elim x [ ]
  tagged-IsSized w [] [] all_nil = tt
  tagged-IsSized w ((k, b) ∷ bufs) (c ∷ ctis) (all_cons h hs) =
      (h.len, tagged-IsSized w bufs ctis hs)

  tagged-two :
      (bufs : List Buffer) (ctis : List CompressThread)
      → AllDone l d (map (λ b. b.1) bufs) ctis
      → All (λ b. b.0 < 2) bufs
      → All (λ t. t.0 < 2) (tagged bufs ctis)
  tagged-two [] (c ∷ ctis) x h = elim x [ ]
  tagged-two ((k, b) ∷ bufs) [] x h = elim x [ ]
  tagged-two [] [] all_nil h = tt
  tagged-two ((k, b) ∷ bufs) (c ∷ ctis) (all_cons g gs) h = (h.0, tagged-two bufs ctis gs h.1)

  IsDone-IsReadable :
      (limits : Limits) (b : List ℕ) (c : CompressThread)
      → IsDone l d b c
      → 1 ≤ length b
      → IsBuffer limits b
      → IsReadable limits c
  IsDone-IsReadable limits b c h lo small = record {
    c_len = h.len;
    filled = h.filled lo;
    no_longer = omega (arith, h.no_longer, h.s_len);
    small = omega (arith, h.s_len, small.small);
    width = omega (arith, h.s_len, small.width);
    ram = elim small.ram [ inl z ↦ inl z | inr q ↦ inr (omega (arith, h.s_len)) ];
    from = h.from;
    upto = h.upto;
    stored = λ e. h.stored e ∙ sym h.s_len;
    bzip2 = λ e. omega (arith, h.s_len, small.small);
  }

  AllDone-AreReadable :
      (limits : Limits) (j : ℕ) (bs : List (List ℕ)) (cs : List CompressThread)
      → AllDone l d bs cs
      → AreFilled j bs
      → All (IsBuffer limits) bs
      → AreReadable limits j cs
  AllDone-AreReadable limits j [] (c ∷ cs) x h k = elim x [ ]
  AllDone-AreReadable limits j (b ∷ bs) [] x h k = elim x [ ]
  AllDone-AreReadable limits j [] [] all_nil h k = tt
  AllDone-AreReadable limits j (b ∷ bs) (c ∷ cs) (all_cons g gs) (inl (lo, h)) k =
      inl (IsDone-IsReadable limits b c g lo k.0, AllDone-AreReadable limits j bs cs gs h k.1)
  AllDone-AreReadable limits j (b ∷ bs) (c ∷ cs) (all_cons g gs) (inr (one, z, last)) k =
      inr (one, omega (arith, g.no_longer), omega (arith, g.s_len), no_more bs cs gs last)

  -- What is delivered of a stream's blocks is decompressed to its buffers.
  AllDone-ucompress_all :
      (malloc : Malloc) (page_size : ℕ) (q : List ℕ) (bs : List (List ℕ)) (cs : List CompressThread)
      → AllDone l d bs cs
      → ((n : ℕ) → malloc n ≡ true)
      → Serves q d
      → ucompress_all (ucompress l malloc page_size q) (delivered cs) ≡ some (filled bs)
  unfolding ucompress_all
  AllDone-ucompress_all malloc page_size q [] (c ∷ cs) x m h = elim x [ ]
  AllDone-ucompress_all malloc page_size q (b ∷ bs) [] x m h = elim x [ ]
  AllDone-ucompress_all malloc page_size q [] [] all_nil m h = refl
  AllDone-ucompress_all malloc page_size q (b ∷ bs) (c ∷ cs) (all_cons g gs) m h =
      let rest = AllDone-ucompress_all malloc page_size q bs cs gs m h in
      elim (Bool-cases (length b == 0)) [
        | inl e ↦ let f : (c.c_len == 0) ≡ true = ground (arith, g.no_longer) in rw (e, f) rest
        | inr e ↦
            let f : (c.c_len == 0) ≡ false = ground (arith, g.filled) in
            rw
              (e, f, g.restores malloc page_size q (m (round_up_page page_size (length b))) h, rest)
              refl
      ]

-- A stream that was handed a buffer.
abbrev pub has : ℕ → List Buffer → Bool
has j [] = false
has j ((k, b) ∷ bs) = k == j || has j bs

tagged-occurs :
    {l : Libs} {d : SharedControl} (w j : ℕ) (bufs : List Buffer) (ctis : List CompressThread)
    → AllDone l d (map (λ b. b.1) bufs) ctis
    → occurs w j (tagged bufs ctis) ≡ has j bufs
tagged-occurs w j [] (c ∷ ctis) x = elim x [ ]
tagged-occurs w j ((k, b) ∷ bufs) [] x = elim x [ ]
tagged-occurs w j [] [] all_nil = refl
tagged-occurs w j ((k, b) ∷ bufs) (c ∷ ctis) (all_cons g gs) =
    ap (λ t. k == j || t) (tagged-occurs w j bufs ctis gs)

buffers_of-All :
    (P : List ℕ → Type 0) (j : ℕ) (bufs : List Buffer)
    → All (λ b. P b.1) bufs
    → All P (buffers_of j bufs)
buffers_of-All P j [] h = tt
buffers_of-All P j ((k, b) ∷ bufs) h = elim (Bool-cases (k == j)) [
  | inl e ↦ rw e (h.0, buffers_of-All P j bufs h.1)
  | inr e ↦ rw e (buffers_of-All P j bufs h.1)
]

small_buffers :
    (limits : Limits) (bufs : List Buffer)
    → All (λ b. IsBuffer limits b.1) bufs
    → All (λ b. length b < 2 ^ 32) (map (λ b. b.1) bufs)
small_buffers limits [] h = tt
small_buffers limits ((k, b) ∷ bufs) h = (h.0.small, small_buffers limits bufs h.1)

-- The streams' buffers, of a chunk that is within the reader's limits.
pub record IsChunk (limits : Limits) (bufs : List Buffer) : Type 0 where
  pub two : All (λ b. b.0 < 2) bufs
  pub control : has 0 bufs ≡ true
  pub literal : has 1 bufs ≡ true
  pub control_filled : AreFilled 0 (buffers_of 0 bufs)
  pub literal_filled : AreFilled 1 (buffers_of 1 bufs)
  pub small : All (λ b. IsBuffer limits b.1) bufs

module _ (l : Libs) (malloc : Malloc) (page_size : ℕ) (q : List ℕ) (limits : Limits)
    (bufs : List Buffer) (chunk : IsChunk limits bufs) where
  read_chunk-AllDone :
      (d : SharedControl) (ctis : List CompressThread)
      → AllDone l d (map (λ b. b.1) bufs) ctis
      → Bounds limits
          (write_blocks limits.chunk_bytes (tagged bufs ctis) (start_chunk limits.chunk_bytes)).body
      → ((n : ℕ) → malloc n ≡ true)
      → Serves q d
      → read_chunk l malloc page_size q limits
          (write_blocks limits.chunk_bytes (tagged bufs ctis) (start_chunk limits.chunk_bytes)).body
        ≡ some (filled (buffers_of 0 bufs), filled (buffers_of 1 bufs))
  unfolding read_chunk
  read_chunk-AllDone d ctis g b m h =
      let w = limits.chunk_bytes in
      let s0 = AllDone-stream 0 bufs ctis g in
      let s1 = AllDone-stream 1 bufs ctis g in
      rw
        (
          write_blocks-read_streams limits (tagged bufs ctis) (tagged-two bufs ctis g chunk.two)
              (tagged-occurs w 0 bufs ctis g ∙ chunk.control)
              (tagged-occurs w 1 bufs ctis g ∙ chunk.literal) (tagged-IsSized w bufs ctis g)
              (AllDone-AreReadable limits 0 _ _ s0 chunk.control_filled
                (buffers_of-All (IsBuffer limits) 0 bufs chunk.small))
              (AllDone-AreReadable limits 1 _ _ s1 chunk.literal_filled
                (buffers_of-All (IsBuffer limits) 1 bufs chunk.small))
              b,
          AllDone-ucompress_all malloc page_size q _ _ s0 m h,
          AllDone-ucompress_all malloc page_size q _ _ s1 m h,
        )
        refl

-- A chunk's buffers come back: where the libraries restore what they compress, the filter mode is
-- a known one, the properties set at first have the default lc, lp and pb, both streams have a
-- buffer, no buffer is empty but the last of stream 1, each is below 4 GiB and within the reader's
-- limits, the threads succeed, the archive ends within the frame, the file, the width and 2 ^ 63,
-- and the reader has memory and properties that cover the published ones, `read_chunk` returns for
-- both streams the buffers in order, less the empty ones.
pub write_chunk-read_chunk :
    (l : Libs) (s : Settings) (parallel serial malloc : Malloc) (page_size : ℕ) (q : List ℕ)
    (c d : SharedControl) (limits : Limits) (bufs : List Buffer) (body : List ℕ)
    → Inverse l
    → IsMode s.filter_mode
    → IsShared c
    → IsChunk limits bufs
    → write_chunk l s parallel serial c limits.chunk_bytes bufs ≡ some (body, d)
    → Bounds limits body
    → ((n : ℕ) → malloc n ≡ true)
    → Serves q d
    → read_chunk l malloc page_size q limits body
      ≡ some (filled (buffers_of 0 bufs), filled (buffers_of 1 bufs))
unfolding write_chunk
write_chunk-read_chunk l s parallel serial malloc page_size q c d limits bufs body inv mode sh chunk
      e b m h =
    go (compress_blocks l s parallel serial c (map (λ b. b.1) bufs))
      (compress_blocks-LeavesBlocks l s inv mode parallel serial c (map (λ b. b.1) bufs)
        (small_buffers limits bufs chunk.small) sh)
      e
  where
    go :
        (r : Option (List CompressThread × SharedControl))
        → LeavesBlocks l s inv mode c (map (λ b. b.1) bufs) r
        → (r >>= archived limits.chunk_bytes bufs) ≡ some (body, d)
        → read_chunk l malloc page_size q limits body
          ≡ some (filled (buffers_of 0 bufs), filled (buffers_of 1 bufs))
    go none k f = absurd (cc)
    go (some (ctis, d')) (all, sh', g) f =
        let p : (write_blocks limits.chunk_bytes (tagged bufs ctis)
              (start_chunk limits.chunk_bytes)).body
            ≡ body =
          ap body_of f in
        let c' : d' ≡ d = ap control_of f in
        rw (← p) (
          read_chunk-AllDone l malloc page_size q limits bufs chunk d' ctis all
            (subst (Bounds limits) (sym p) b) m (subst (Serves q) (sym c') h))
      where
        body_of : Option (List ℕ × SharedControl) → List ℕ
        body_of none = []
        body_of (some (x, y)) = x

        control_of : Option (List ℕ × SharedControl) → SharedControl
        control_of none = d
        control_of (some (x, y)) = y
