-- ===== src/Bcm2712Gpio.antt =====
-- Silicon/Broadcom/Bcm27xx/Library/Bcm2712GpioLib/Bcm2712GpioLib.c (under meta-rpi5-uefi/recipes-bsp/
-- edk2-platforms/files/edk2-platforms): pin functions, pulls, levels and directions of the SoC. A failed
-- ASSERT is taken for its FailAction alone.
pub mod Tables
pub mod Fields
pub mod Functions
pub mod Tests
use Tables.{PinRegisters, unused, gio_registers, gio_aon_registers}
use rpi5_uefi_build.Common.{
  ℕ, zero, suc, ◌+◌, ◌-◌, ◌*◌, ◌/◌, ◌%◌, ◌^◌, Bool, true, false, not, Option, none, some, List, [],
  ◌∷◌, length, bit_and, bit_or, ltb, ◌==◌, if◌then◌else◌, u8, u32, u64, not32,
}
use rpi5_uefi_build.Common.Mmio.{Device, M, pure, read32, write32, or32, and32, ◌>>=◌, ◌>>◌}

-- BCM2712_GPIO_TYPE, BCM2712_GPIO_PIN_PULL and BCM2712_GPIO_PIN_DIRECTION; the last constructor is
-- every value that is none of the enumeration.
pub data Controller : Type 0 where
  gio gio_aon other_controller : Controller

pub data Direction : Type 0 where
  output input other_direction : Direction

abbrev pub gio_data_reg : ℕ
gio_data_reg = 0x4

abbrev pub gio_iodir_reg : ℕ
gio_iodir_reg = 0x8

abbrev pub gio_bank_size : ℕ
gio_bank_size = 8 * 4

abbrev pub max_pins_per_bank : ℕ
max_pins_per_bank = 32

abbrev pub bank_offset : ℕ → ℕ
bank_offset pin = pin / max_pins_per_bank * gio_bank_size

abbrev pub fsel_mask : ℕ
fsel_mask = 0xf

abbrev pub pull_mask : ℕ
pull_mask = 0x3

-- BCM2712_GPIO_ALT_COUNT
abbrev pub alt_count : ℕ
alt_count = 9

abbrev pub gio_base : Controller → ℕ
gio_base gio = 0x10_7d50_8500
gio_base gio_aon = 0x10_7d51_7c00
gio_base other_controller = 0

abbrev pub pinctrl_base : Controller → ℕ
pinctrl_base gio = 0x10_7d50_4100
pinctrl_base gio_aon = 0x10_7d51_0700
pinctrl_base other_controller = 0

-- `PinctrlRegisters`, with none for a controller that is not there.
abbrev pub registers : Controller → List PinRegisters
registers gio = gio_registers
registers gio_aon = gio_aon_registers
registers other_controller = []

abbrev pub nth : List PinRegisters → ℕ → Option PinRegisters
nth [] n = none
nth (r ∷ rs) zero = some r
nth (r ∷ rs) (suc n) = nth rs n

-- GPIOLIB_ASSERT_COMMON_PARAMS, and the pin's registers.
unfoldable pub pin_registers : Controller → ℕ → Option PinRegisters
pin_registers type pin = nth (registers type) pin

-- MmioAndThenOr32
abbrev pub and_then_or32 : Device → ℕ → ℕ → ℕ → M (Unit {0})
and_then_or32 device a mask v = read32 device a >>= λ old. write32 a (bit_or (bit_and old mask) v)

-- The field of a mask at a bit of a register.
abbrev pub cleared : ℕ → ℕ → ℕ
cleared mask bit = not32 (u32 (mask * 2 ^ bit))

abbrev pub field : ℕ → ℕ → ℕ → ℕ
field mask bit value = bit_and (value / 2 ^ bit) mask

module _ (device : Device) (type : Controller) where
  abbrev pub reg_address : ℕ → ℕ
  reg_address reg = u64 (pinctrl_base type + reg)

  abbrev pub function_of : Option PinRegisters → M ℕ
  function_of none = pure alt_count
  function_of (some r) =
      if r.mux_reg == unused
      then pure alt_count
      else (read32 device (reg_address r.mux_reg) >>= λ value.
          pure (field fsel_mask r.mux_bit value))

  -- `GpioGetFunction`
  unfoldable pub gpio_get_function : ℕ → M ℕ
  gpio_get_function pin = function_of (pin_registers type pin)

  abbrev pub function_to : ℕ → Option PinRegisters → M (Unit {0})
  function_to function none = pure tt
  function_to function (some r) =
      if r.mux_reg == unused
      then pure tt
      else and_then_or32 device (reg_address r.mux_reg) (cleared fsel_mask r.mux_bit)
          (u32 (function * 2 ^ r.mux_bit))

  -- `GpioSetFunction`
  unfoldable pub gpio_set_function : ℕ → ℕ → M (Unit {0})
  gpio_set_function pin function = function_to function (pin_registers type pin)

  abbrev pub pull_of : Option PinRegisters → M ℕ
  pull_of none = pure 0
  pull_of (some r) =
      if r.ctl_reg == unused
      then pure 0
      else (read32 device (reg_address r.ctl_reg) >>= λ value.
          pure (field pull_mask r.ctl_bit value))

  -- `GpioGetPull`: 0, 1 and 2 are no pull, down and up.
  unfoldable pub gpio_get_pull : ℕ → M ℕ
  gpio_get_pull pin = pull_of (pin_registers type pin)

  abbrev pub pull_to : ℕ → Option PinRegisters → M (Unit {0})
  pull_to pull none = pure tt
  pull_to pull (some r) =
      if not (ltb pull 3)
      then pure tt
      else if r.ctl_reg == unused
      then pure tt
      else and_then_or32 device (reg_address r.ctl_reg) (cleared pull_mask r.ctl_bit)
          (u32 (pull * 2 ^ r.ctl_bit))

  -- `GpioSetPull`
  unfoldable pub gpio_set_pull : ℕ → ℕ → M (Unit {0})
  gpio_set_pull pin pull = pull_to pull (pin_registers type pin)

  -- 1 << Pin, which C leaves open for 32 and more: there it is what the compiler makes of it.
  module _ (open_shift : ℕ → ℕ) where
    abbrev pub reg_bit : ℕ → ℕ
    reg_bit pin = if ltb pin 32 then 2 ^ pin else u32 (open_shift pin)

    abbrev pub bank_reg : ℕ → ℕ → ℕ
    bank_reg pin reg = u64 (gio_base type + bank_offset pin + reg)

    -- `GpioRead`
    unfoldable pub gpio_read : ℕ → M Bool
    gpio_read pin = elim (pin_registers type pin) [
      | none ↦ pure false
      | some r ↦ read32 device (bank_reg pin gio_data_reg) >>= λ value.
          pure (not (bit_and value (reg_bit pin) == 0))
    ]

    -- `GpioWrite`
    unfoldable pub gpio_write : ℕ → Bool → M (Unit {0})
    gpio_write pin value = elim (pin_registers type pin) [
      | none ↦ pure tt
      | some r ↦
          if value
          then or32 device (bank_reg pin gio_data_reg) (reg_bit pin)
          else and32 device (bank_reg pin gio_data_reg) (not32 (reg_bit pin))
    ]

    -- `GpioGetDirection`
    unfoldable pub gpio_get_direction : ℕ → M Direction
    gpio_get_direction pin = elim (pin_registers type pin) [
      | none ↦ pure output
      | some r ↦ read32 device (bank_reg pin gio_iodir_reg) >>= λ value.
          pure (if bit_and value (reg_bit pin) == 0 then output else input)
    ]

    -- `GpioSetDirection`, whose test of the direction holds of every value.
    unfoldable pub gpio_set_direction : ℕ → Direction → M (Unit {0})
    gpio_set_direction pin direction = elim (pin_registers type pin) [
      | none ↦ pure tt
      | some r ↦ elim direction [
        | input ↦ or32 device (bank_reg pin gio_iodir_reg) (reg_bit pin)
        | output ↦ and32 device (bank_reg pin gio_iodir_reg) (not32 (reg_bit pin))
        | other_direction ↦ pure tt
      ]
    ]
