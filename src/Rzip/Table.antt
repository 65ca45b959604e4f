-- ===== src/Rzip/Table.antt =====
-- rzip.c, the hash table of tags: its slots, insertion with eviction, and the sweep that cleans it.
use lrzip.Common.{
  ℕ, zero, suc, ◌+◌, ◌-◌, ◌*◌, ◌/◌, ◌%◌, ◌^◌, bit_and, List, [], ◌∷◌, get_or, set, ltb, ◌==◌,
  if◌then◌else◌, Bool, true, false, ◌&&◌, not,
}

-- `struct level`
pub record Level : Type 0 where
  pub mb_used : ℕ
  pub initial_freq : ℕ
  pub max_chain_len : ℕ

abbrev level_of : ℕ → ℕ → ℕ → Level
level_of m f c = record { mb_used = m; initial_freq = f; max_chain_len = c }

-- `levels[10]`
unfoldable pub levels : List Level
levels =
    level_of 1 4 1
    ∷ level_of 2 4 2
    ∷ level_of 4 4 2
    ∷ level_of 8 4 2
    ∷ level_of 16 4 3
    ∷ level_of 32 4 4
    ∷ level_of 32 2 6
    ∷ level_of 64 1 16
    ∷ level_of 64 1 32
    ∷ level_of 64 1 128
    ∷ []

-- `struct hash_entry` and `struct hash_entry_wide`: a tag and a position in the chunk.
pub record Entry : Type 0 where
  pub t : ℕ
  pub offset : ℕ

abbrev pub empty_entry : Entry
empty_entry = record { t = 0; offset = 0 }

abbrev pub tag_mod : ℕ
tag_mod = 2 ^ 32

-- The part of `struct rzip_state` that the table is kept in, with the `static victim_round`.
pub record Table : Type 0 where
  pub max_chain_len : ℕ
  pub slots : List Entry
  pub hash_bits : ℕ
  pub hash_wide : Bool
  pub hash_count : ℕ
  pub hash_limit : ℕ
  pub minimum_tag_mask : ℕ
  pub tag_clean_ptr : ℕ
  pub victim_round : ℕ

-- All zero means empty.
unfoldable pub empty_hash : Entry → Bool
empty_hash e = e.offset == 0 && e.t == 0

abbrev pub nslots : Table → ℕ
nslots tb = 2 ^ tb.hash_bits

-- `t & ((1U << st->hash_bits) - 1)`
unfoldable pub primary_hash : Table → ℕ → ℕ
primary_hash tb t = t % nslots tb

-- `(tag_mask << 1) | 1`, in 32 bits.
unfoldable pub increase_mask : ℕ → ℕ
increase_mask tag_mask = (2 * tag_mask + 1) % tag_mod

-- Has `t` all the bits of `mask`?
unfoldable pub meets : ℕ → ℕ → Bool
meets t mask = bit_and t mask == mask

unfoldable pub minimum_bitness : Table → ℕ → Bool
unfolding meets increase_mask
minimum_bitness tb t = not (meets t (increase_mask tb.minimum_tag_mask))

-- The index of the lowest 1 bit among `n`, from 1 on.
unfoldable pub ffs_loop : ℕ → ℕ → ℕ
ffs_loop zero x = 0
ffs_loop (suc n) x = if x % 2 == 1 then 1 else suc (ffs_loop n (x / 2))

-- `__builtin_ffs((int)x)`; 0 for 0.
unfoldable pub ffs : ℕ → ℕ
unfolding ffs_loop
ffs x = if x == 0 then 0 else ffs_loop 32 x

-- `~a`, in 32 bits.
abbrev pub complement : ℕ → ℕ
complement a = tag_mod - 1 - a

unfoldable pub lesser_bitness : ℕ → ℕ → Bool
unfolding ffs
lesser_bitness a b = ltb (ffs (complement a)) (ffs (complement b))

-- A slot out of range reads as empty; `h` is always below `nslots`.
unfoldable pub hash_get : Table → ℕ → Entry
hash_get tb h = get_or tb.slots h empty_entry

-- A narrow entry keeps 32 bits of the offset.
unfoldable pub hash_set : Table → ℕ → ℕ → ℕ → Table
hash_set tb h t offset = record tb {
  slots =
      set tb.slots h (record { t = t; offset = if tb.hash_wide then offset else offset % tag_mod });
}

unfoldable pub hash_clear_slot : Table → ℕ → Table
hash_clear_slot tb h = hash_set tb h 0 0

unfoldable pub next_slot : Table → ℕ → ℕ
next_slot tb h = (h + 1) % nslots tb

-- `st->hash_count--`, which follows an increment.
abbrev pub uncount : Table → Table
uncount tb = record tb { hash_count = tb.hash_count - 1 }

-- `if (++victim_round == st->level->max_chain_len) victim_round = 0`
abbrev pub next_victim_round : Table → Table
next_victim_round tb = record tb {
  victim_round = if tb.victim_round + 1 == tb.max_chain_len then 0 else tb.victim_round + 1;
}

-- The loop of `insert_hash` from slot `h` on. The call of `insert_hash` on the occupant starts again
-- at the occupant's own primary slot. Out of fuel nothing is inserted.
unfoldable pub insert_walk : ℕ → Table → ℕ → ℕ → ℕ → ℕ → ℕ → Table
unfolding empty_hash minimum_bitness lesser_bitness hash_set hash_get next_slot primary_hash
insert_walk zero tb t offset h victim_h round = tb
insert_walk (suc fuel) tb t offset h victim_h round =
    let he = hash_get tb h in
    let rehash = insert_walk fuel tb he.t he.offset (primary_hash tb he.t) 0 0 in
    let victim_h' = if round == tb.victim_round then h else victim_h in
    let on_same = insert_walk fuel tb t offset (next_slot tb h) victim_h' (round + 1) in
    let on_other = insert_walk fuel tb t offset (next_slot tb h) victim_h round in
    if empty_hash he
    then hash_set tb h t offset
    else if minimum_bitness tb he.t
    then hash_set (uncount tb) h t offset
    else if lesser_bitness he.t t
    then hash_set rehash h t offset
    else if he.t == t
    then (if round + 1 == tb.max_chain_len
        then hash_set (next_victim_round (uncount tb)) victim_h' t offset
        else on_same)
    else on_other

-- The rehashed tag has strictly fewer low bits each time, so the walks nest 33 deep at most, each
-- of them over the slots once.
unfoldable pub insert_fuel : Table → ℕ
insert_fuel tb = 34 * (nslots tb + 1)

unfoldable pub insert_hash : Table → ℕ → ℕ → Table
unfolding insert_walk insert_fuel
insert_hash tb t offset = insert_walk (insert_fuel tb) tb t offset (primary_hash tb t) 0 0

-- The `for` loop of `clean_one_from_hash`, over the slots that are left: it stops at the first
-- entry that lacks a bit of the mask, and clears it.
unfoldable pub clean_sweep : ℕ → Table → ℕ → Bool × Table
unfolding empty_hash meets hash_get hash_clear_slot hash_set
clean_sweep zero tb mask = (false, tb)
clean_sweep (suc left) tb mask =
    let he = hash_get tb tb.tag_clean_ptr in
    let rest = clean_sweep left (record tb { tag_clean_ptr = tb.tag_clean_ptr + 1 }) mask in
    if not (empty_hash he) && not (meets he.t mask)
    then (true, uncount (hash_clear_slot tb tb.tag_clean_ptr))
    else rest

-- `goto again` with the next mask. After 32 masks all bits are required.
unfoldable pub clean_loop : ℕ → Table → Table × ℕ
unfolding clean_sweep increase_mask
clean_loop zero tb = (tb, increase_mask tb.minimum_tag_mask)
clean_loop (suc fuel) tb =
    let better = increase_mask tb.minimum_tag_mask in
    let r = clean_sweep (nslots tb - tb.tag_clean_ptr) tb better in
    let again = clean_loop fuel (record (r.1) { minimum_tag_mask = better; tag_clean_ptr = 0 }) in
    if r.0 then (r.1, better) else again

unfoldable pub clean_one_from_hash : Table → Table × ℕ
unfolding clean_loop
clean_one_from_hash tb = clean_loop 34 tb
