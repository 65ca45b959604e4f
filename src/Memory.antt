-- ===== src/Memory.antt =====
-- util.c, the sizes that the program works with: `setup_overhead`, `setup_ram` and the rounding to
-- pages.
pub mod Bounds
pub mod Tests
use lrzip.Common.{
  ℕ, zero, suc, ◌+◌, ◌-◌, ◌*◌, ◌/◌, ◌%◌, ◌^◌, ltb, leb, ◌==◌, if◌then◌else◌, Bool, true, false,
  ◌&&◌, ◌||◌, not,
}

-- The dictionary of the encoder at the direct levels 1 to 9.
unfoldable pub ultra_dictsize : ℕ → ℕ
ultra_dictsize level =
    if leb level 4
    then 2 ^ (level * 2 + 16)
    else if leb level 6
    then 2 ^ (level + 20)
    else if level == 7
    then 2 ^ 26
    else if level == 8
    then 2 ^ 27
    else 2 ^ 28

unfoldable pub ultra_level : ℕ → ℕ
ultra_level compression_level =
    if compression_level == 0 then 1 else if ltb 9 compression_level then 9 else compression_level

-- `while (dictcap * 13 <= control->ramsize / 3 && dictcap < ((i64)1 << 28))`
unfoldable pub dictcap_loop : ℕ → ℕ → ℕ → ℕ
dictcap_loop zero ramsize dictcap = dictcap
dictcap_loop (suc fuel) ramsize dictcap =
    let rest = dictcap_loop fuel ramsize (dictcap * 2) in
    if leb (dictcap * 13) (ramsize / 3) && ltb dictcap (2 ^ 28) then rest else dictcap

-- From 2 ^ 20 to 2 ^ 28 in eight doublings.
unfoldable pub dictcap : ℕ → ℕ
dictcap ramsize = dictcap_loop 8 ramsize (2 ^ 20)

unfoldable pub capped_dictsize : ℕ → ℕ → ℕ
capped_dictsize compression_level ramsize =
    let dictsize = ultra_dictsize (ultra_level compression_level) in
    if ltb (dictcap ramsize) dictsize then dictcap ramsize else dictsize

-- The dictionary that the SDK takes at a level.
unfoldable pub sdk_dictsize : ℕ → ℕ
sdk_dictsize level =
    if leb level 5 then 2 ^ (level * 2 + 14) else if level == 6 then 2 ^ 25 else 2 ^ 26

unfoldable pub lzma_level : ℕ → ℕ
lzma_level compression_level =
    let level = compression_level * 7 / 9 in if level == 0 then 1 else level

abbrev pub lzma_overhead : ℕ → ℕ
lzma_overhead dictsize = dictsize * 23 / 2 + 6 * 1024 * 1024 + 16384

pub record Overhead : Type 0 where
  pub lzma_dictsize : ℕ
  pub overhead : ℕ

-- The two fields of `struct rzip_control` that are set, from what they were.
unfoldable pub setup_overhead : Bool → Bool → Bool → ℕ → ℕ → Overhead → Overhead
setup_overhead lzma ultra zpaq compression_level ramsize o =
    if lzma && ultra
    then record {
      lzma_dictsize = capped_dictsize compression_level ramsize;
      overhead = lzma_overhead (capped_dictsize compression_level ramsize);
    }
    else if lzma
    then record o { overhead = lzma_overhead (sdk_dictsize (lzma_level compression_level)) }
    else if zpaq
    then record o { overhead = 112 * 1024 * 1024 }
    else o

unfoldable pub round_to_page : ℕ → ℕ → ℕ
round_to_page page size = let rounded = size - size % page in if rounded == 0 then page else rounded

unfoldable pub round_up_page : ℕ → ℕ → ℕ
round_up_page page len = if not (len % page == 0) then len + (page - len % page) else len

-- `maxram` and `usable_ram`.
unfoldable pub setup_ram : ℕ → Bool → Bool → Bool → Bool → ℕ → ℕ × ℕ
setup_ram page stdin stdout decompress test_only ramsize =
    let maxram =
      if stdout && ((stdin && decompress) || not (decompress || test_only))
      then ramsize / 6
      else ramsize / 3 in
    (round_to_page page maxram, maxram)
