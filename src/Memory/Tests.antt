-- ===== src/Memory/Tests.antt =====
-- The theorems on sizes, at an input where their hypotheses hold.
use lrzip.Common.{ℕ, ◌*◌, ◌/◌, ◌^◌, ◌≤◌, ◌<◌, ◌≡◌, ◌⊎◌, arith, max, true, false}
use lrzip.Memory.{dictcap, setup_ram}
use lrzip.Memory.Bounds.{dictcap-bounds, setup_ram-pages}

-- 64 megabytes of memory: the cap needs more than the third that there is.
dictcap-bounds_example :
    (2 ^ 20 ≤ dictcap (2 ^ 26))
    × (dictcap (2 ^ 26) ≤ 2 ^ 28)
    × ((dictcap (2 ^ 26) ≡ 2 ^ 20) ⊎ (dictcap (2 ^ 26) * 13 ≤ 2 * (2 ^ 26 / 3)))
    × ((2 ^ 26 / 3 < dictcap (2 ^ 26) * 13) ⊎ (2 ^ 28 ≤ dictcap (2 ^ 26)))
dictcap-bounds_example = dictcap-bounds (2 ^ 26)

setup_ram-pages_example :
    ((k : ℕ) × ((setup_ram 4096 false true false false 1000000).0 ≡ k * 4096) × (1 ≤ k))
    × ((setup_ram 4096 false true false false 1000000).0
        ≤ max 4096 (setup_ram 4096 false true false false 1000000).1)
    × ((setup_ram 4096 false true false false 1000000).1 ≤ 1000000 / 3)
setup_ram-pages_example = setup_ram-pages 4096 false true false false 1000000 (omega arith)
