-- ===== src/Rp1Gpio.antt =====
-- Silicon/RaspberryPi/RpiSiliconPkg/Library/Rp1GpioLib/Rp1GpioLib.c (under
-- meta-rpi5-uefi/recipes-bsp/edk2-platforms/files/edk2-platforms): the RP1's GPIO banks over MMIO.
-- The pins are below RP1_GPIO_COUNT, which the sources assert.
pub mod Fields
pub mod Tests
use rpi5_uefi_build.Common.{
  ℕ, ◌+◌, ◌-◌, ◌*◌, ◌^◌, Bool, bit_and, bit_or, ltb, ◌==◌, not, if◌then◌else◌, u32, u64,
}
use rpi5_uefi_build.Common.Mmio.{Device, M, pure, ◌>>=◌, ◌>>◌, read32, write32}

abbrev pub pads_bank0_base : ℕ
pads_bank0_base = 0xf_0000

abbrev pub io_bank0_base : ℕ
io_bank0_base = 0xd_0000

abbrev pub sys_rio0_base : ℕ
sys_rio0_base = 0xe_0000

abbrev pub atomic_set_offset : ℕ
atomic_set_offset = 0x2000

abbrev pub atomic_clr_offset : ℕ
atomic_clr_offset = 0x3000

abbrev pub rio_out_offset : ℕ
rio_out_offset = 0

abbrev pub rio_oe_offset : ℕ
rio_oe_offset = 4

abbrev pub rio_in_offset : ℕ
rio_in_offset = 8

abbrev pub func_rio : ℕ
func_rio = 5

pub data Pull : Type 0 where
  pull_none pull_down pull_up : Pull

-- `Rp1GpioLocatePin`: the offset of the bank's window, and the pin in it.
unfoldable pub locate_pin : ℕ → ℕ × ℕ
locate_pin pin =
    if ltb pin 28 then (0, pin) else if ltb pin 34 then (0x4000, pin - 28) else (0x8000, pin - 34)

abbrev pub pads_pin_offset : ℕ → ℕ
pads_pin_offset pin = 4 + pin * 4

abbrev pub io_ctrl_offset : ℕ → ℕ
io_ctrl_offset pin = pin * 8 + 4

-- The pad register after the two updates of `Rp1GpioSetFunction`.
unfoldable pub pad_enabled : ℕ → ℕ
pad_enabled value = bit_and (bit_or value 0x40) (2 ^ 32 - 1 - 0x80)

-- The CTRL register with the function selected and the overrides cleared.
unfoldable pub ctrl_selected : ℕ → ℕ → ℕ
ctrl_selected value function = bit_or (bit_and value (2 ^ 32 - 1 - 0xf01f)) (bit_and function 0x1f)

-- The pad register with the pull of `Rp1GpioSetPull`.
unfoldable pub pad_pulled : ℕ → Pull → ℕ
pad_pulled value pull =
    let cleared = bit_and value (2 ^ 32 - 1 - 0xc) in
    elim pull [ pull_down ↦ bit_or cleared 4 | pull_up ↦ bit_or cleared 8 | pull_none ↦ cleared ]

module _ (dev : Device) (base : ℕ) where
  unfoldable pub set_function : ℕ → ℕ → M (Unit {0})
  unfolding locate_pin pad_enabled ctrl_selected
  set_function pin function =
      let (bank, local) = locate_pin pin in
      let pad_reg = u64 (base + pads_bank0_base + bank + pads_pin_offset local) in
      let ctrl_reg = u64 (base + io_bank0_base + bank + io_ctrl_offset local) in
      do
        pad ← read32 dev pad_reg
        write32 pad_reg (pad_enabled pad)
        ctrl ← read32 dev ctrl_reg
        write32 ctrl_reg (ctrl_selected ctrl function)

  unfoldable pub set_pull : ℕ → Pull → M (Unit {0})
  unfolding locate_pin pad_pulled
  set_pull pin pull =
      let (bank, local) = locate_pin pin in
      let pad_reg = u64 (base + pads_bank0_base + bank + pads_pin_offset local) in
      do pad ← read32 dev pad_reg; write32 pad_reg (pad_pulled pad pull)

  unfoldable pub set_direction : ℕ → Bool → M (Unit {0})
  unfolding set_function
  set_direction pin output =
      let (bank, local) = locate_pin pin in
      let rio_bank = base + sys_rio0_base + bank in
      do
        write32
            (u64 (
              rio_bank + rio_oe_offset + (if output then atomic_set_offset else atomic_clr_offset)))
            (2 ^ local)
        set_function pin func_rio

  unfoldable pub gpio_read : ℕ → M Bool
  unfolding locate_pin
  gpio_read pin =
      let (bank, local) = locate_pin pin in
      do
        value ← read32 dev (u64 (base + sys_rio0_base + bank + rio_in_offset))
        pure (not (bit_and value (2 ^ local) == 0))

  unfoldable pub gpio_write : ℕ → Bool → M (Unit {0})
  unfolding locate_pin
  gpio_write pin value =
      let (bank, local) = locate_pin pin in
      write32
        (u64 (
          base
          + sys_rio0_base
          + bank
          + rio_out_offset
          + (if value then atomic_set_offset else atomic_clr_offset)))
        (2 ^ local)
