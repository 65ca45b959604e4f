-- ===== src/Rzip/Search.antt =====
-- rzip.c, `hash_search`: the walk over a chunk that finds matches and writes its tokens, on the
-- path where the whole chunk is mapped. Progress reports are left out.
pub mod Step
pub mod Ends
pub mod Covers
pub mod Digest
use lrzip.Common.{
  ℕ, zero, suc, ◌+◌, ◌-◌, ◌*◌, ◌/◌, ◌^◌, min, List, [], ◌∷◌, ◌++◌, replicate, ltb, leb, ◌==◌,
  if◌then◌else◌, Bool, true, false, ◌&&◌, ◌||◌, not,
}
use lrzip.Common.Slice.{slice}
use lrzip.Rzip.Output.{Output, Stats, put_literal, put_match, s0_flush}
use lrzip.Rzip.Match.{minimum_match}
use lrzip.Rzip.Table.{
  Table, Level, Entry, empty_entry, nslots, insert_hash, clean_one_from_hash, meets,
}
use lrzip.Rzip.Tag.{full_tag, next_tag}
use lrzip.Rzip.Probe.{Best, find_best_match}

abbrev pub great_match : ℕ
great_match = 1024

-- `current`
pub record Current : Type 0 where
  pub p : ℕ
  pub ofs : ℕ
  pub len : ℕ

-- The variables of `hash_search`, and what it changes in `struct rzip_state`. `jobs` are the
-- buffers that `md5_queue` has given to the MD5 worker, oldest first.
pub record Search : Type 0 where
  pub table : Table
  pub out : Output
  pub p : ℕ
  pub t : ℕ
  pub tag_mask : ℕ
  pub last_match : ℕ
  pub current : Current
  pub cksum_limit : ℕ
  pub jobs : List (List ℕ)

-- `1 << bits` is the first power of two that is not below `hashsize`; 23 doublings reach the
-- largest `hashsize` of the levels.
unfoldable pub bits_loop : ℕ → ℕ → ℕ → ℕ
bits_loop zero bits hashsize = bits
bits_loop (suc fuel) bits hashsize =
    let rest = bits_loop fuel (bits + 1) hashsize in if ltb (2 ^ bits) hashsize then rest else bits

abbrev pub hash_entry_size_narrow : ℕ
hash_entry_size_narrow = 8

-- `mb_used` megabytes of narrow entries, and no more than the chunk can use.
unfoldable pub hash_size : Level → ℕ → ℕ
hash_size level chunk_size =
    let hashsize = level.mb_used * (1024 * 1024 / hash_entry_size_narrow) in
    let cap = if ltb chunk_size (2 ^ 16) then 2 ^ 16 else chunk_size in
    if ltb cap hashsize then cap else hashsize

unfoldable pub initial_mask : Level → ℕ
initial_mask level = 2 ^ level.initial_freq - 1

-- The table at the start of a chunk: cleared, or allocated anew and zero. `victim_round` is static
-- and stays.
unfoldable pub init_table : Level → ℕ → ℕ → Table
unfolding bits_loop hash_size initial_mask
init_table level chunk_size victim_round =
    let bits = bits_loop 24 0 (hash_size level chunk_size) in
    record {
      max_chain_len = level.max_chain_len;
      slots = replicate (2 ^ bits) empty_entry;
      hash_bits = bits;
      hash_wide = ltb (2 ^ 32 - 1) chunk_size;
      hash_count = 0;
      hash_limit = 2 ^ bits / 3 * 2;
      minimum_tag_mask = initial_mask level;
      tag_clean_ptr = 0;
      victim_round = victim_round;
    }

-- `md5_queue`: buffers of at most `capacity` bytes of the chunk.
unfoldable pub md5_queue : (ℕ → ℕ) → ℕ → ℕ → List (List ℕ) → ℕ → ℕ → List (List ℕ)
md5_queue buf capacity zero jobs offset len = jobs
md5_queue buf capacity (suc fuel) jobs offset len =
    let n = min len capacity in
    let rest =
      md5_queue buf capacity fuel (jobs ++ (slice buf offset n ∷ [])) (offset + n) (len - n) in
    if ltb 0 len then rest else jobs

-- The chunk: its bytes, its size and offset width; the stream's buffer size; the capacity of the MD5
-- buffer; and `feed`, that the chunk is to be summed here (`!NO_MD5 && !st->chunk_md5_done`).
module _ (hash_index buf : ℕ → ℕ) (chunk_size chunk_bytes bufsize capacity : ℕ) (feed : Bool) where
  abbrev pub end_of : ℕ
  end_of = chunk_size - minimum_match

  -- `sb->offset_search = ++p`, and the tag there.
  pub advance : Search → Search
  advance s = record s { p = s.p + 1; t = next_tag hash_index buf (s.p + 1) s.t }

  pub count_probes : Best → Search → Search
  count_probes b s = record s {
    out = record (s.out) {
      stats = record (s.out.stats) {
        tag_hits = s.out.stats.tag_hits + b.tag_hits;
        tag_misses = s.out.stats.tag_misses + b.tag_misses;
      };
    };
  }

  pub count_insert : Search → Search
  count_insert s = record s {
    table = record (s.table) { hash_count = s.table.hash_count + 1 };
    out = record (s.out) { stats = record (s.out.stats) { inserts = s.out.stats.inserts + 1 } };
  }

  -- `if (st->hash_count > st->hash_limit) tag_mask = clean_one_from_hash(control, st)`
  pub clean_if_full : Search → Search
  clean_if_full s =
      if ltb s.table.hash_limit s.table.hash_count
      then record s {
        table = (clean_one_from_hash s.table).0;
        tag_mask = (clean_one_from_hash s.table).1;
      }
      else s

  -- "Only insert occasionally into hash."
  pub insert_tag : Search → Search
  insert_tag s =
      let c = count_insert s in
      if meets s.t s.tag_mask
      then clean_if_full (record c { table = insert_hash c.table s.t s.p })
      else s

  -- `if (mlen > current.len)`
  pub improve : Best → Search → Search
  improve b s =
      if ltb s.current.len b.length
      then record s { current = record { p = s.p - b.reverse; ofs = b.offset; len = b.length } }
      else s

  pub is_due : Search → Bool
  is_due s =
      (leb great_match s.current.len || leb (s.current.p + minimum_match) s.p)
      && leb minimum_match s.current.len

  pub put_gap : Search → Output
  put_gap s =
      if ltb s.last_match s.current.p
      then put_literal bufsize chunk_bytes buf s.out s.last_match s.current.p
      else s.out

  -- The current match is written, and the search goes on behind it: `p` may step back.
  pub put_current : Search → Search
  put_current s =
      let next = s.current.p + s.current.len in
      record s {
        out = put_match bufsize chunk_bytes buf (put_gap s) s.current.p s.current.ofs s.current.len;
        last_match = next;
        p = next;
        current = record (s.current) { p = next; len = 0 };
        t = full_tag hash_index buf next;
      }

  pub emit_if_due : Search → Search
  emit_if_due s = if is_due s then put_current s else s

  -- `while (cksum_limit < st->chunk_size && p > cksum_limit)`
  pub feed_loop : ℕ → Search → Search
  feed_loop zero s = s
  feed_loop (suc fuel) s =
      let n = min capacity (chunk_size - s.cksum_limit) in
      let rest = feed_loop fuel (record s {
        jobs = md5_queue buf capacity (suc n) s.jobs s.cksum_limit n;
        cksum_limit = s.cksum_limit + n;
      }) in
      if ltb s.cksum_limit chunk_size && ltb s.cksum_limit s.p then rest else s

  pub feed_md5 : Search → Search
  feed_md5 s = if feed then feed_loop chunk_size s else s

  pub best_at : Search → Best
  best_at s = find_best_match buf s.last_match s.p end_of s.table s.t

  -- The rest of the loop body, behind the `continue`.
  pub consider : Search → Search
  consider s =
      feed_md5 (emit_if_due (improve (best_at s) (insert_tag (count_probes (best_at s) s))))

  -- "Don't look for a match if there are no tags with this number of bits in the hash table."
  pub step : Search → Search
  step s = let a = advance s in if not (meets a.t a.table.minimum_tag_mask) then a else consider a

  -- `while (p < end)`
  unfoldable pub search_loop : ℕ → Search → Search
  search_loop zero s = s
  search_loop (suc fuel) s =
      let rest = search_loop fuel (step s) in if ltb s.p end_of then rest else s

  -- A match consumes bytes for good, any other round moves `p` on.
  abbrev pub search_fuel : ℕ
  search_fuel = (end_of + 1) * (end_of + 1)

  unfoldable pub start : Level → ℕ → Output → Search
  start level victim_round o = record {
    table = init_table level chunk_size victim_round;
    out = record o { s0_buf = [] };
    p = 0;
    t = if ltb 0 end_of then full_tag hash_index buf 0 else 0;
    tag_mask = initial_mask level;
    last_match = 0;
    current = record { p = 0; ofs = 0; len = 0 };
    cksum_limit = 0;
    jobs = [];
  }

  -- Behind the loop: the bytes after the last match.
  unfoldable pub put_tail : Search → Output
  put_tail s =
      if ltb s.last_match chunk_size
      then put_literal bufsize chunk_bytes buf s.out s.last_match chunk_size
      else s.out

  -- `md5_queue` of what is left. The worker is then drained.
  pub md5_jobs : Search → List (List ℕ)
  md5_jobs s =
      if feed && ltb s.cksum_limit chunk_size
      then md5_queue buf capacity (suc (chunk_size - s.cksum_limit)) s.jobs s.cksum_limit
          (chunk_size - s.cksum_limit)
      else s.jobs

  -- The end marker, and the last flush of the batch.
  unfoldable pub finish_output : Output → Output
  finish_output o = s0_flush bufsize chunk_bytes buf (put_literal bufsize chunk_bytes buf o 0 0)

  unfoldable pub searched : Level → ℕ → Output → Search
  searched level victim_round o = search_loop search_fuel (start level victim_round o)

  -- What the streams hold at the end of `hash_search`, and what the MD5 worker was given.
  unfoldable pub hash_search : Level → ℕ → Output → Output × List (List ℕ)
  hash_search level victim_round o =
      let s = searched level victim_round o in (finish_output (put_tail s), md5_jobs s)
