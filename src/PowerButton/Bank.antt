-- ===== src/PowerButton/Bank.antt =====
-- Where a GPIO is: the banks of "brcm,gpio-bank-widths" (PowerButtonEntryPoint of PowerButtonDxe.c).
use rpi5_uefi_build.Common.{
  ℕ, zero, suc, ◌+◌, ◌-◌, ◌<◌, ◌≤◌, ◌≡◌, refl, ap, ◌∙◌, inl, inr, ◌⊎◌, Option, none, some, ltb,
  ltb-false, Bool-cases, arith, Mem,
}
use rpi5_uefi_build.Fdt.{cell}
use rpi5_uefi_build.PowerButton.{find_bank}

-- The pins of `n` banks, from cell `i` on.
abbrev pub pins_of : Mem → ℕ → ℕ → ℕ
pins_of widths i zero = 0
pins_of widths i (suc n) = cell widths i + pins_of widths (i + 1) n

-- The GPIO's bank is the one of the list that has it, behind the pins of the banks before; there is none if
-- all banks have too few pins.
abbrev pub Located : Mem → ℕ → ℕ → ℕ → ℕ → Option (ℕ × ℕ) → Type 0
Located widths i count first gpio o =
    ((o ≡ none) × (pins_of widths i count ≤ gpio))
    ⊎ ((bank : ℕ) × (offset : ℕ) × (o ≡ some (first + bank, offset))
        × (bank < count)
        × (offset < cell widths (i + bank))
        × (gpio ≡ pins_of widths i bank + offset))

-- One bank more at the front.
Located-later :
    (widths : Mem) (i left first gpio : ℕ) (o : Option (ℕ × ℕ))
    → cell widths i ≤ gpio
    → Located widths (i + 1) left (first + 1) (gpio - cell widths i) o
    → Located widths i (suc left) first gpio o
Located-later widths i left first gpio o past (inl (e, few)) = inl (e, omega arith)
Located-later widths i left first gpio o past (inr (bank, offset, e, less, fits, sum)) =
    let next : i + suc bank ≡ i + 1 + bank = omega arith in
    inr (
      suc bank,
      offset,
      e ∙ ap (λ b. some (b, offset)) (omega arith),
      omega arith,
      rw next fits,
      omega arith,
    )

-- The search of the bank widths gives the bank and the offset that have the GPIO: the pins of the
-- banks before it and the offset add up to the GPIO's number, and the offset is below the bank's
-- width; it gives none exactly if the banks have too few pins.
pub find_bank-Located :
    (widths : Mem) (left i first gpio : ℕ)
    → Located widths i left first gpio (find_bank widths left i first gpio)
unfolding find_bank
find_bank-Located widths zero i first gpio = inl (refl, omega arith)
find_bank-Located widths (suc left) i first gpio = elim (Bool-cases (ltb gpio (cell widths i))) [
  | inl here ↦
      let first_bank : i + 0 ≡ i = omega arith in
      rw here (
        inr (
          0,
          gpio,
          ap (λ b. some (b, gpio)) (omega arith),
          omega arith,
          rw first_bank (ground arith),
          omega arith,
        ))
  | inr past ↦ rw past (
      Located-later widths i left first gpio _ (ltb-false gpio (cell widths i) past)
        (find_bank-Located widths left (i + 1) (first + 1) (gpio - cell widths i)))
]
