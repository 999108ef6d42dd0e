-- ===== src/PowerButton/Halt.antt =====
-- ReadPowerOffOnHalt of PowerButtonDxe.c: a flag in the bootloader's configuration text.
use rpi5_uefi_build.Common.{
  ℕ, zero, suc, ◌+◌, Bool, false, ◌&&◌, none, some, List, [], ◌∷◌, length, take, get_or, ltb, ◌==◌,
  if◌then◌else◌, Mem,
}
use rpi5_uefi_build.Blcfg.{CompareLib}
use rpi5_uefi_build.Fdt.{FdtLib, blconfig_region, staged}

-- "POWER_OFF_ON_HALT="
abbrev pub halt_key : List ℕ
halt_key =
    b'P' ∷ b'O' ∷ b'W' ∷ b'E' ∷ b'R' ∷ b'_' ∷ b'O' ∷ b'F' ∷ b'F' ∷ b'_' ∷ b'O' ∷ b'N' ∷ b'_' ∷ b'H'
    ∷ b'A' ∷ b'L' ∷ b'T' ∷ b'=' ∷ []

-- What is left behind the line: from its NUL on, or behind its newline.
unfoldable pub skip_line : List ℕ → List ℕ
skip_line [] = []
skip_line (c ∷ text) =
    let rest = skip_line text in if c == 0 then c ∷ text else if c == 10 then text else rest

abbrev pub has_key : CompareLib → List ℕ → Bool
has_key lib text = ltb 18 (length text) && lib.compare_mem (take 18 text) halt_key == 0

-- The loop over the lines, from `Pos` on.
unfoldable pub scan : CompareLib → ℕ → List ℕ → Bool
scan lib zero text = false
scan lib (suc fuel) [] = false
scan lib (suc fuel) (c ∷ text) =
    let rest = scan lib fuel (skip_line (c ∷ text)) in
    if c == 0
    then false
    else if has_key lib (c ∷ text)
    then get_or (c ∷ text) 18 0 == b'1'
    else rest

-- `ReadPowerOffOnHalt`, with the memory that the region is in and whether AllocatePool succeeds.
unfoldable pub read_power_off_on_halt : CompareLib → FdtLib → Mem → Bool → Bool
read_power_off_on_halt lib fdt memory pool = elim (blconfig_region fdt) [
  | none ↦ false
  | some (address, n) ↦
      if pool
      then scan lib (length (staged memory address n) + 1) (staged memory address n)
      else false
]
