-- ===== src/MemoryMap/Regions.antt =====
-- The regions of the memory map: they do not overlap, and above 1 GB they are the board's RAM.
use rpi5_uefi_build.Common.{
  ℕ, zero, suc, subst, sym, ◌+◌, ◌-◌, ◌*◌, ◌^◌, ◌<◌, ◌≤◌, ◌≡◌, ◌↔◌, ◌⊎◌, inl, inr, Bool, true,
  false, List, [], ◌∷◌, ◌++◌, length, arith, ltb, Bool-cases, refl,
}
use rpi5_uefi_build.BoardRevision.{get_memory_size, memory_size_field}
use rpi5_uefi_build.MemoryMap.{
  Layout, Region, when, low_regions, high_regions, registers, has_above_4gb, above_4gb, from_4gb,
  has_below_4gb, below_4gb, from_3gb, has_below_3gb, below_3gb, regions, max_descriptors, size_1gb,
  size_64gb,
}

-- The PCDs of a build: the firmware, the variables, the device tree and the memory follow one another
-- below 1 GB.
pub record IsSane (layout : Layout) : Type 0 where
  pub fd_below : layout.fd_base ≤ layout.variables_base
  pub variables_below : layout.variables_base ≤ layout.fdt_base
  pub fdt_below : layout.fdt_base + layout.fdt_size ≤ layout.system_memory_base
  pub memory_below : layout.system_memory_base ≤ layout.system_memory_end + 1
  pub memory_end : layout.system_memory_end + 1 ≤ size_1gb

-- Each region ends before the next begins.
abbrev pub Ordered : ℕ → List Region → Type 0
Ordered from [] = Unit
Ordered from (r ∷ rs) = (from ≤ r.base) × Ordered (r.base + r.len) rs

-- An address in one of the regions.
abbrev pub Mapped : List Region → ℕ → Type 0
Mapped [] a = ⊥
Mapped (r ∷ rs) a = ((r.base ≤ a) × (a < r.base + r.len)) ⊎ Mapped rs a

pow_bound : (k : ℕ) → k < 8 → 2 ^ k ≤ 128
pow_bound zero h = omega arith
pow_bound (suc zero) h = omega arith
pow_bound (suc (suc zero)) h = omega arith
pow_bound (suc (suc (suc zero))) h = omega arith
pow_bound (suc (suc (suc (suc zero)))) h = omega arith
pow_bound (suc (suc (suc (suc (suc zero))))) h = omega arith
pow_bound (suc (suc (suc (suc (suc (suc zero)))))) h = omega arith
pow_bound (suc (suc (suc (suc (suc (suc (suc zero))))))) h = omega arith
pow_bound (suc (suc (suc (suc (suc (suc (suc (suc k)))))))) h = absurd (omega arith)

get_memory_size_bound : (revision : ℕ) → get_memory_size revision ≤ 2 ^ 35
unfolding get_memory_size memory_size_field
get_memory_size_bound revision =
    ground (arith, pow_bound (memory_size_field revision) (omega arith))

abbrev In : Region → ℕ → Type 0
In r a = (r.base ≤ a) × (a < r.base + r.len)

Mapped-when :
    (b : Bool) (r : Region) (rest : List Region) (a : ℕ)
    → Mapped (when b r ++ rest) a
    → ((b ≡ true) × In r a) ⊎ Mapped rest a
Mapped-when true r rest a (inl here) = inl (refl, here)
Mapped-when true r rest a (inr later) = inr later
Mapped-when false r rest a later = inr later

when-here :
    (b : Bool) (r : Region) (rest : List Region) (a : ℕ)
    → b ≡ true
    → In r a
    → Mapped (when b r ++ rest) a
when-here true r rest a e here = inl here
when-here false r rest a e here = absurd (cc)

when-later :
    (b : Bool) (r : Region) (rest : List Region) (a : ℕ)
    → Mapped rest a
    → Mapped (when b r ++ rest) a
when-later true r rest a later = inr later
when-later false r rest a later = later

module _ (layout : Layout) where
  -- Consecutive, as many as the table has room for, and above 1 GB the board's RAM.
  abbrev pub IsMap : ℕ → List Region → Type 0
  IsMap total list =
      Ordered layout.fd_base list
      × (length list + 1 ≤ max_descriptors)
      × ((a : ℕ) → size_1gb ≤ a → a < size_64gb → Mapped list a ↔ a < total)

module _ (layout : Layout) (sane : IsSane layout) where
  open sane use {fd_below, variables_below, fdt_below, memory_below, memory_end}

  high-Ordered : (total : ℕ) → total ≤ 2 ^ 35 → Ordered size_1gb (high_regions total)
  high-Ordered total h = ground arith

  high-Mapped :
      (total a : ℕ) → size_1gb ≤ a → a < size_64gb → Mapped (high_regions total) a ↔ a < total
  high-Mapped total a above below = (
    λ m. elim (Mapped-when (has_below_3gb total) (below_3gb total) (from_3gb total) a m) [
      | inl (some_ram, here) ↦ ground arith
      | inr m' ↦ elim (Mapped-when (has_below_4gb total) (below_4gb total) (from_4gb total) a m') [
        | inl (some_ram, here) ↦ ground arith
        | inr m'' ↦ elim (Mapped-when (has_above_4gb total) (above_4gb total) registers a m'') [
          | inl (some_ram, here) ↦ ground arith
          | inr (inl here) ↦ absurd (omega arith)
          | inr (inr none') ↦ absurd none'
        ]
      ]
    ],
    λ less. elim (Bool-cases (ltb a (3 * size_1gb))) [
      | inl low ↦
          when-here (has_below_3gb total) (below_3gb total) (from_3gb total) a (ground arith)
            (ground arith)
      | inr up ↦
          when-later (has_below_3gb total) (below_3gb total) (from_3gb total) a
            (elim (Bool-cases (ltb a (4 * size_1gb))) [
              | inl middle ↦
                  when-here (has_below_4gb total) (below_4gb total) (from_4gb total) a
                    (ground arith) (ground arith)
              | inr high ↦ when-later (has_below_4gb total) (below_4gb total) (from_4gb total) a (
                  when-here (has_above_4gb total) (above_4gb total) registers a (ground arith)
                    (ground arith))
            ])
    ],
  )

  high_length : (total : ℕ) → length (high_regions total) ≤ 4
  high_length total = ground arith

  low_unmapped :
      (rest : List Region) (a : ℕ)
      → size_1gb ≤ a
      → Mapped (low_regions layout ++ rest) a
      → Mapped rest a
  low_unmapped rest a above (inl here) = absurd (omega arith)
  low_unmapped rest a above (inr (inl here)) = absurd (omega arith)
  low_unmapped rest a above (inr (inr (inl here))) = absurd (omega arith)
  low_unmapped rest a above (inr (inr (inr (inl here)))) = absurd (omega arith)
  low_unmapped rest a above (inr (inr (inr (inr (inl here))))) = absurd (omega arith)
  low_unmapped rest a above (inr (inr (inr (inr (inr later))))) = later

  -- For PCDs that place the firmware, the variables, the device tree and the memory one after
  -- the other below 1 GB, and every board revision: the regions of
  -- ArmPlatformGetVirtualMemoryMap do not overlap and come in order, they and the end of the
  -- table fit its 11 descriptors, and an address from 1 GB to 64 GB is mapped exactly if it is
  -- below the board's memory size.
  pub regions-IsMap :
      (revision : ℕ) → IsMap layout (get_memory_size revision) (regions layout revision)
  unfolding regions
  regions-IsMap revision =
      let total = get_memory_size revision in
      let high = high_regions total in
      let gap : layout.system_memory_end + 1 + (size_1gb - (layout.system_memory_end + 1))
          ≡ size_1gb =
        omega arith in
      let ordered =
        subst (λ from. Ordered from high) (sym gap)
          (high-Ordered total (get_memory_size_bound revision)) in
      (
        (omega arith, (omega arith, (omega arith, (omega arith, (omega arith, ordered))))),
        omega (arith, high_length total),
        λ a above below.
            let (ram, map) = high-Mapped total a above below in
            (
              λ m. ram (low_unmapped high a above m),
              λ less. inr (inr (inr (inr (inr (map less))))),
            ),
      )
