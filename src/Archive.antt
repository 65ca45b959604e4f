-- ===== src/Archive.antt =====
-- stream.c, a chunk from the buffers of its two streams to the archive and back: `compthread`,
-- `fill_buffer` and `ucompthread` together.
pub mod RoundTrip
pub mod Whole
pub mod Tests
use lrzip.Common.{
  ℕ, zero, suc, ◌+◌, ◌*◌, ◌^◌, ◌≤◌, ◌<◌, ◌≡◌, ◌⊎◌, refl, sym, ap, ap₂, ◌∙◌, arith, Bool, true,
  false, ◌||◌, Option, none, some, List, [], ◌∷◌, length, map, ◌==◌, if◌then◌else◌, ◌>>=◌, All,
  Bool-cases, inl, inr,
}
use lrzip.Memory.{round_up_page}
use lrzip.Backend.Types.{Libs, Malloc, Settings, SharedControl, CompressThread, UncompThread}
use lrzip.Backend.Uncomp.{ucompress}
use lrzip.Backend.Packed.{Inverse, Serves, as_stored}
use lrzip.Backend.Restore.Lzma.{IsMode}
use lrzip.Backend.Shared.{IsShared}
use lrzip.Backend.Thread.{compress_blocks}
use lrzip.Backend.Thread.Restores.{IsDone, AllDone, all_nil, all_cons, compress_blocks-LeavesBlocks}
use lrzip.Chain.{start_chunk, write_blocks}
use lrzip.Chain.Layout.{Tagged, occurs, IsSized}
use lrzip.Chain.Reader.{Limits}
use lrzip.Chain.Reader.Follows.{blocks_of, IsReadable, Bounds}
use lrzip.Chain.Reader.Order.{delivered, AreReadable}
use lrzip.Chain.Open.{read_streams}
use lrzip.Chain.RoundTrip.{write_blocks-read_streams}

-- A buffer with the number of its stream, as `clear_buffer` hands it on.
abbrev pub Buffer : Type 0
Buffer = ℕ × List ℕ

abbrev pub tagged : List Buffer → List CompressThread → List Tagged
tagged ((j, b) ∷ bs) (c ∷ cs) = (j, c) ∷ tagged bs cs
tagged bs cs = []

-- The blocks in their turns.
abbrev pub archived :
    ℕ → List Buffer → List CompressThread × SharedControl → Option (List ℕ × SharedControl)
archived w bufs (ctis, d) = some ((write_blocks w (tagged bufs ctis) (start_chunk w)).body, d)

-- The chunk's bytes behind its header, and what the threads then share. The blocks are written in
-- the order in which they are handed on.
unfoldable pub write_chunk :
    Libs
    → Settings
    → Malloc
    → Malloc
    → SharedControl
    → ℕ
    → List Buffer
    → Option (List ℕ × SharedControl)
write_chunk l s parallel serial c w bufs =
    compress_blocks l s parallel serial c (map (λ b. b.1) bufs) >>= archived w bufs

-- Each block through its thread; one that fails is the end.
unfoldable pub ucompress_all :
    (UncompThread → Option (List ℕ)) → List UncompThread → Option (List (List ℕ))
ucompress_all f [] = some []
ucompress_all f (u ∷ us) = f u >>= λ b. ucompress_all f us >>= λ bs. some (b ∷ bs)

unfoldable pub read_chunk :
    Libs → Malloc → ℕ → List ℕ → Limits → List ℕ → Option (List (List ℕ) × List (List ℕ))
read_chunk l malloc page_size lzma_properties limits body = read_streams limits body >>= λ (us, vs).
    ucompress_all (ucompress l malloc page_size lzma_properties) us >>= λ control.
    ucompress_all (ucompress l malloc page_size lzma_properties) vs >>= λ literal.
    some (control, literal)

-- The buffers of stream `j`.
abbrev pub buffers_of : ℕ → List Buffer → List (List ℕ)
buffers_of j [] = []
buffers_of j ((k, b) ∷ bs) = if k == j then b ∷ buffers_of j bs else buffers_of j bs

-- No buffer is empty, but that of stream 1 the last may be.
abbrev pub AreFilled : ℕ → List (List ℕ) → Type 0
AreFilled j [] = Unit
AreFilled j (b ∷ bs) = ((1 ≤ length b) × AreFilled j bs) ⊎ ((j ≡ 1) × (length b ≡ 0) × (bs ≡ []))

-- A buffer within the limits of the reader and of the bzip2 library.
pub record IsBuffer (limits : Limits) (b : List ℕ) : Type 0 where
  pub small : length b < 2 ^ 32
  pub width : length b < 256 ^ limits.chunk_bytes
  pub ram : (limits.maxram ≡ 0) ⊎ (length b ≤ limits.maxram)
