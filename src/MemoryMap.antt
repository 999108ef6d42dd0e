-- ===== src/MemoryMap.antt =====
-- Platform/RaspberryPi/RPi5/Library/PlatformLib/RaspberryPiMem.c (under meta-rpi5-uefi/recipes-bsp/
-- edk2-platforms/files/edk2-platforms): the memory map that the MMU is set up with. The PCDs and
-- mSystemMemoryEnd are parameters. Addresses are UINT64; no difference wraps for the PCDs of a sane build.
pub mod Regions
pub mod Tests
use rpi5_uefi_build.Common.{
  ℕ, ◌+◌, ◌-◌, ◌*◌, ◌^◌, Bool, true, false, Option, none, some, List, [], ◌∷◌, ◌++◌, min, ltb,
  if◌then◌else◌,
}
use rpi5_uefi_build.BoardRevision.{get_memory_size}

-- The PCDs that the map is built from, and mSystemMemoryEnd.
pub record Layout : Type 0 where
  pub fd_base : ℕ
  pub variables_base : ℕ
  pub fdt_base : ℕ
  pub fdt_size : ℕ
  pub system_memory_base : ℕ
  pub system_memory_end : ℕ

-- ARM_MEMORY_REGION_ATTRIBUTE and the RPI_MEM type.
pub data Attribute : Type 0 where
  write_back device : Attribute

pub data Kind : Type 0 where
  reserved_region runtime_region basic_region unmapped_region : Kind

pub record Region : Type 0 where
  pub base : ℕ
  pub len : ℕ
  pub attribute : Attribute
  pub kind : Kind

-- MAX_VIRTUAL_MEMORY_MAP_DESCRIPTORS, with the one that ends the table.
abbrev pub max_descriptors : ℕ
max_descriptors = 11

abbrev pub size_1gb : ℕ
size_1gb = 2 ^ 30

abbrev pub size_64gb : ℕ
size_64gb = 2 ^ 36

abbrev pub region : ℕ → ℕ → Attribute → Kind → Region
region base end attribute kind = record {
  base = base;
  len = end - base;
  attribute = attribute;
  kind = kind;
}

-- A region that is there under a condition.
abbrev pub when : Bool → Region → List Region
when true r = r ∷ []
when false r = []

-- The device registers.
abbrev pub registers : List Region
registers = region size_64gb (2 * size_64gb) device unmapped_region ∷ []

-- The RAM above 1 GB, from the top down, by the board's total.
abbrev pub has_above_4gb : ℕ → Bool
has_above_4gb total = ltb (4 * size_1gb) total

abbrev pub above_4gb : ℕ → Region
above_4gb total = region (4 * size_1gb) total write_back basic_region

abbrev pub from_4gb : ℕ → List Region
from_4gb total = when (has_above_4gb total) (above_4gb total) ++ registers

abbrev pub has_below_4gb : ℕ → Bool
has_below_4gb total = ltb (3 * size_1gb) (min total (4 * size_1gb))

abbrev pub below_4gb : ℕ → Region
below_4gb total = region (3 * size_1gb) (min total (4 * size_1gb)) write_back unmapped_region

abbrev pub from_3gb : ℕ → List Region
from_3gb total = when (has_below_4gb total) (below_4gb total) ++ from_4gb total

abbrev pub has_below_3gb : ℕ → Bool
has_below_3gb total = ltb size_1gb (min total (3 * size_1gb))

abbrev pub below_3gb : ℕ → Region
below_3gb total = region size_1gb (min total (3 * size_1gb)) write_back basic_region

abbrev pub high_regions : ℕ → List Region
high_regions total = when (has_below_3gb total) (below_3gb total) ++ from_3gb total

module _ (layout : Layout) where
  open layout use {
    fd_base, variables_base, fdt_base, fdt_size, system_memory_base, system_memory_end,
  }

  -- The regions below 1 GB.
  abbrev pub low_regions : List Region
  low_regions =
      region fd_base variables_base write_back reserved_region
      ∷ region variables_base fdt_base write_back runtime_region
      ∷ region fdt_base (fdt_base + fdt_size) write_back reserved_region
      ∷ region system_memory_base (system_memory_end + 1) write_back basic_region
      ∷ region (system_memory_end + 1) size_1gb device unmapped_region
      ∷ []

  -- The regions of a board, without the zero descriptor at the end.
  unfoldable pub regions : ℕ → List Region
  regions revision = low_regions ++ high_regions (get_memory_size revision)

-- What is left of a call: CpuDeadLoop, no pages for the table, or the table.
pub data Result : Type 0 where
  dead no_memory : Result
  mapped : List Region → Result

-- `ArmPlatformGetVirtualMemoryMap`, with what BoardInfoGetRevisionCode and AllocatePages give.
unfoldable pub get_virtual_memory_map : Layout → Option ℕ → Bool → Result
get_virtual_memory_map layout none pages = dead
get_virtual_memory_map layout (some revision) pages =
    if pages then mapped (regions layout revision) else no_memory

-- `RpiPlatformGetVirtualMemoryInfo`, whose answer waits for the map.
unfoldable pub get_virtual_memory_info : Result → Option (List Region)
get_virtual_memory_info dead = none
get_virtual_memory_info no_memory = none
get_virtual_memory_info (mapped list) = some list
