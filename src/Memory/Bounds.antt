-- ===== src/Memory/Bounds.antt =====
-- Bounds on the sizes.
use native.Mathlib.Nat.{pow-succ', one-le-pow}
use lrzip.Common.{
  ℕ, zero, suc, ◌-◌, ◌*◌, ◌/◌, ◌%◌, ◌^◌, ◌≤◌, ◌<◌, ◌≡◌, refl, ap, arith, ltb, leb, ◌==◌, Bool, ◌&&◌,
  ◌||◌, not, max, ◌⊎◌, Bool-cases, inl, inr,
}
use lrzip.Memory.{dictcap_loop, dictcap, round_to_page, setup_ram}

doubled : (room fuel : ℕ) → room * 2 * 2 ^ fuel ≡ room * 2 ^ suc fuel
doubled room fuel = omega (arith, ap (λ t. room * t) (pow-succ' 2 fuel))

-- The loop ends at its condition, not at its fuel.
dictcap_loop-ends :
    (fuel ramsize room : ℕ)
    → 2 ^ 28 ≤ room * 2 ^ fuel
    → (ramsize / 3 < dictcap_loop fuel ramsize room * 13)
      ⊎ (2 ^ 28 ≤ dictcap_loop fuel ramsize room)
unfolding dictcap_loop
dictcap_loop-ends zero ramsize room h = inr (omega arith)
dictcap_loop-ends (suc fuel) ramsize room h =
    elim (Bool-cases (leb (room * 13) (ramsize / 3) && ltb room (2 ^ 28))) [
      | inl e ↦ rw e (dictcap_loop-ends fuel ramsize (room * 2) (omega (arith, doubled room fuel)))
      | inr e ↦ rw e (ground arith)
    ]

dictcap_loop-range :
    (fuel ramsize room : ℕ)
    → (room ≤ dictcap_loop fuel ramsize room)
      × (dictcap_loop fuel ramsize room ≤ room * 2 ^ fuel)
      × ((dictcap_loop fuel ramsize room ≡ room)
          ⊎ (dictcap_loop fuel ramsize room * 13 ≤ 2 * (ramsize / 3)))
unfolding dictcap_loop
dictcap_loop-range zero ramsize room = (omega arith, omega arith, inl refl)
dictcap_loop-range (suc fuel) ramsize room =
    elim (Bool-cases (leb (room * 13) (ramsize / 3) && ltb room (2 ^ 28))) [
      | inl e ↦ rw e (go (ground arith) (dictcap_loop-range fuel ramsize (room * 2)))
      | inr e ↦ rw e (omega arith, omega (arith, doubled room fuel, grown), inl refl)
    ]
  where
    grown : room ≤ room * 2 ^ suc fuel
    grown = grind (arith, one-le-pow (suc fuel) 2)

    go :
        room * 13 ≤ ramsize / 3
        → (room * 2 ≤ dictcap_loop fuel ramsize (room * 2))
          × (dictcap_loop fuel ramsize (room * 2) ≤ room * 2 * 2 ^ fuel)
          × ((dictcap_loop fuel ramsize (room * 2) ≡ room * 2)
              ⊎ (dictcap_loop fuel ramsize (room * 2) * 13 ≤ 2 * (ramsize / 3)))
        → (room ≤ dictcap_loop fuel ramsize (room * 2))
          × (dictcap_loop fuel ramsize (room * 2) ≤ room * 2 ^ suc fuel)
          × ((dictcap_loop fuel ramsize (room * 2) ≡ room)
              ⊎ (dictcap_loop fuel ramsize (room * 2) * 13 ≤ 2 * (ramsize / 3)))
    go fits (a, b, c) = (
      omega arith,
      omega (arith, doubled room fuel),
      inr (elim c [ inl q ↦ omega arith | inr q ↦ q ]),
    )

-- The cap of the dictionary is from 2 ^ 20 to 2 ^ 28 bytes, and is 2 ^ 20 or at most twice a size
-- whose thirteenfold fits a third of the memory; its own thirteenfold does not fit, unless the cap
-- is 2 ^ 28.
pub dictcap-bounds :
    (ramsize : ℕ)
    → (2 ^ 20 ≤ dictcap ramsize)
      × (dictcap ramsize ≤ 2 ^ 28)
      × ((dictcap ramsize ≡ 2 ^ 20) ⊎ (dictcap ramsize * 13 ≤ 2 * (ramsize / 3)))
      × ((ramsize / 3 < dictcap ramsize * 13) ⊎ (2 ^ 28 ≤ dictcap ramsize))
unfolding dictcap
dictcap-bounds ramsize =
    let (a, b, c) = dictcap_loop-range 8 ramsize (2 ^ 20) in
    (a, b, c, dictcap_loop-ends 8 ramsize (2 ^ 20) (omega arith))

round_to_page-pages :
    (page size : ℕ)
    → 0 < page
    → ((k : ℕ) × (round_to_page page size ≡ k * page) × (1 ≤ k))
      × (round_to_page page size ≤ max page size)
unfolding round_to_page
round_to_page-pages page size h = elim (Bool-cases (size - size % page == 0)) [
  | inl e ↦ rw e ((1, omega arith, omega arith), omega arith)
  | inr e ↦ rw e ((size / page, whole, positive (size / page) whole (ground arith)), omega arith)
]
  where
    whole : size - size % page ≡ size / page * page
    whole = omega arith

    positive : (k : ℕ) → size - size % page ≡ k * page → 1 ≤ size - size % page → 1 ≤ k
    positive zero q o = absurd (omega arith)
    positive (suc k) q o = omega arith

-- For a positive page size, `setup_ram` leaves a `maxram` of whole pages, one at least, that is at
-- most the usable memory or one page, and usable memory of at most a third of what there is.
pub setup_ram-pages :
    (page : ℕ) (stdin stdout decompress test_only : Bool) (ramsize : ℕ)
    → 0 < page
    → ((k : ℕ) × ((setup_ram page stdin stdout decompress test_only ramsize).0 ≡ k * page)
        × (1 ≤ k))
      × ((setup_ram page stdin stdout decompress test_only ramsize).0
          ≤ max page (setup_ram page stdin stdout decompress test_only ramsize).1)
      × ((setup_ram page stdin stdout decompress test_only ramsize).1 ≤ ramsize / 3)
unfolding setup_ram
setup_ram-pages page stdin stdout decompress test_only ramsize h =
    elim (Bool-cases (stdout && ((stdin && decompress) || not (decompress || test_only)))) [
      | inl e ↦ rw e (
        (round_to_page-pages page (ramsize / 6) h).0,
        (round_to_page-pages page (ramsize / 6) h).1,
        omega arith,
      )
      | inr e ↦ rw e (
        (round_to_page-pages page (ramsize / 3) h).0,
        (round_to_page-pages page (ramsize / 3) h).1,
        omega arith,
      )
    ]
