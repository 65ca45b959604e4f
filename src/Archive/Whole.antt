-- ===== src/Archive/Whole.antt =====
-- A chunk through the whole program: `hash_search` of rzip.c, the threads and headers of stream.c,
-- and the token loop of runzip.c.
use lrzip.Common.{ℕ, ◌^◌, ◌<◌, ◌≡◌, ap, ◌∙◌, Bool, true, some, List, length, concat}
use lrzip.Stream.Write.{close_stream_out, concat-close_stream_out}
use lrzip.Stream.Read.{filled, concat-filled}
use lrzip.Rzip.Table.{Level}
use lrzip.Rzip.Output.{Output}
use lrzip.Rzip.Width.{chunk_width}
use lrzip.Runzip.Chunk.{Reader, unzip_tokens}
use lrzip.RoundTrip.{rzip_chunk, open_chunk, Restores, restored, rzip_chunk-Covers}
use lrzip.Backend.Types.{Libs, Malloc, Settings, SharedControl}
use lrzip.Backend.Packed.{Inverse, Serves}
use lrzip.Backend.Restore.Lzma.{IsMode}
use lrzip.Backend.Shared.{IsShared}
use lrzip.Chain.Reader.{Limits}
use lrzip.Chain.Reader.Follows.{Bounds}
use lrzip.Archive.{Buffer, write_chunk, read_chunk, buffers_of}
use lrzip.Archive.RoundTrip.{IsChunk, write_chunk-read_chunk}

-- The buffers that the two streams hand on while `hash_search` writes to them, in any order of the
-- streams.
pub record AreBuffers (o : Output) (bufs : List Buffer) : Type 0 where
  pub control : buffers_of 0 bufs ≡ close_stream_out o.control
  pub literal : buffers_of 1 bufs ≡ close_stream_out o.literal

-- A chunk shorter than 2 ^ 63 bytes comes back byte for byte from the archive's bytes: for every
-- level, buffer size above 0 and way in which the two streams' buffers alternate, under the
-- conditions of `write_chunk-read_chunk` on libraries, filter mode, properties, buffers, limits
-- and memory, `read_chunk` finds blocks on which the token loop of `runzip_chunk` returns, its
-- output the earlier one and the chunk, counted and summed, and nothing left in either stream.
pub rzip_chunk-read_chunk :
    (hash_index : ℕ → ℕ) (bufsize capacity : ℕ) (feed : Bool) (level : Level) (victim_round : ℕ)
    (chunk_filter : ℕ) (chunk before : List ℕ) (l : Libs) (s : Settings)
    (parallel serial malloc : Malloc) (page_size : ℕ) (q : List ℕ) (c d : SharedControl)
    (limits : Limits) (bufs : List Buffer) (body : List ℕ)
    → 0 < bufsize
    → length chunk < 2 ^ 63
    → AreBuffers (rzip_chunk hash_index bufsize capacity feed level victim_round chunk) bufs
    → Inverse l
    → IsMode s.filter_mode
    → IsShared c
    → IsChunk limits bufs
    → write_chunk l s parallel serial c limits.chunk_bytes bufs ≡ some (body, d)
    → Bounds limits body
    → ((n : ℕ) → malloc n ≡ true)
    → Serves q d
    → (control : List (List ℕ)) × (literal : List (List ℕ)) × (read_chunk l malloc page_size q
          limits body
        ≡ some (control, literal))
      × (r : Reader) × (unzip_tokens chunk_filter
            (chunk_width (length chunk))
            2
            (open_chunk control literal before)
          ≡ some r)
      × Restores chunk_filter chunk before r
rzip_chunk-read_chunk hash_index bufsize capacity feed level victim_round chunk_filter chunk before
      l s parallel serial malloc page_size q c d limits bufs body pos small h inv mode sh ok e b m
      serves =
    let (r, e', back) =
      restored chunk_filter bufsize chunk before small
        (rzip_chunk-Covers hash_index bufsize capacity feed level victim_round chunk pos small) _ _
        (concat-filled (buffers_of 0 bufs) ∙ ap concat h.control ∙ concat-close_stream_out _)
        (concat-filled (buffers_of 1 bufs) ∙ ap concat h.literal ∙ concat-close_stream_out _) in
    (
      filled (buffers_of 0 bufs),
      filled (buffers_of 1 bufs),
      write_chunk-read_chunk l s parallel serial malloc page_size q c d limits bufs body inv mode sh
          ok e b m serves,
      r,
      e',
      back,
    )
