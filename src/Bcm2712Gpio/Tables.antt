-- ===== src/Bcm2712Gpio/Tables.antt =====
-- The pin tables of Bcm2712GpioLib.c: where a pin's function and its pull are.
use rpi5_uefi_build.Common.{ℕ, List, [], ◌∷◌}

-- BCM2712_PINCTRL_REGISTERS
pub record PinRegisters : Type 0 where
  pub mux_reg : ℕ
  pub mux_bit : ℕ
  pub ctl_reg : ℕ
  pub ctl_bit : ℕ

-- PINCTRL_REG_UNUSED
abbrev pub unused : ℕ
unused = 0xffff

abbrev pub pin : ℕ → ℕ → ℕ → ℕ → PinRegisters
pin mux_reg mux_bit ctl_reg ctl_bit = record {
  mux_reg = mux_reg;
  mux_bit = mux_bit;
  ctl_reg = ctl_reg;
  ctl_bit = ctl_bit;
}

-- `Bcm2712PinctrlGioRegisters`
abbrev pub gio_registers : List PinRegisters
gio_registers =
    pin unused 0 unused 0
    ∷ pin 0x0 0 0x10 10
    ∷ pin 0x0 4 0x10 12
    ∷ pin 0x0 8 0x10 14
    ∷ pin 0x0 12 0x10 16
    ∷ pin unused 0 unused 0
    ∷ pin unused 0 unused 0
    ∷ pin unused 0 unused 0
    ∷ pin unused 0 unused 0
    ∷ pin unused 0 unused 0
    ∷ pin 0x0 16 0x10 18
    ∷ pin 0x0 20 0x10 20
    ∷ pin 0x0 24 0x10 22
    ∷ pin 0x0 28 0x10 24
    ∷ pin 0x4 0 0x10 26
    ∷ pin 0x4 4 0x10 28
    ∷ pin unused 0 unused 0
    ∷ pin unused 0 unused 0
    ∷ pin 0x4 8 0x14 0
    ∷ pin 0x4 12 0x14 2
    ∷ pin 0x4 16 0x14 4
    ∷ pin 0x4 20 0x14 6
    ∷ pin 0x4 24 0x14 8
    ∷ pin 0x4 28 0x14 10
    ∷ pin 0x8 0 0x14 12
    ∷ pin 0x8 4 0x14 14
    ∷ pin 0x8 8 0x14 16
    ∷ pin 0x8 12 0x14 18
    ∷ pin 0x8 16 0x14 20
    ∷ pin 0x8 20 0x14 22
    ∷ pin 0x8 24 0x14 24
    ∷ pin 0x8 28 0x14 26
    ∷ pin 0xc 0 0x14 28
    ∷ pin 0xc 4 0x18 0
    ∷ pin 0xc 8 0x18 2
    ∷ pin 0xc 12 0x18 4
    ∷ pin unused 0 0x18 6
    ∷ pin unused 0 0x18 8
    ∷ pin unused 0 0x18 10
    ∷ pin unused 0 0x18 12
    ∷ pin unused 0 0x18 14
    ∷ pin unused 0 0x18 16
    ∷ pin unused 0 0x18 18
    ∷ pin unused 0 0x18 20
    ∷ pin unused 0 0x18 22
    ∷ pin unused 0 0x18 24
    ∷ pin unused 0 0x18 26
    ∷ []

-- `Bcm2712PinctrlGioAonRegisters`
abbrev pub gio_aon_registers : List PinRegisters
gio_aon_registers =
    pin 0xc 0 0x14 18
    ∷ pin 0xc 4 0x14 20
    ∷ pin 0xc 8 0x14 22
    ∷ pin 0xc 12 0x14 24
    ∷ pin 0xc 16 0x14 26
    ∷ pin 0xc 20 0x14 28
    ∷ pin 0xc 24 0x18 0
    ∷ pin unused 0 unused 0
    ∷ pin 0xc 28 0x18 2
    ∷ pin 0x10 0 0x18 4
    ∷ pin unused 0 unused 0
    ∷ pin unused 0 unused 0
    ∷ pin 0x10 4 0x18 6
    ∷ pin 0x10 8 0x18 8
    ∷ pin 0x10 12 0x18 10
    ∷ pin unused 0 unused 0
    ∷ pin unused 0 unused 0
    ∷ pin unused 0 unused 0
    ∷ pin unused 0 unused 0
    ∷ pin unused 0 unused 0
    ∷ pin unused 0 unused 0
    ∷ pin unused 0 unused 0
    ∷ pin unused 0 unused 0
    ∷ pin unused 0 unused 0
    ∷ pin unused 0 unused 0
    ∷ pin unused 0 unused 0
    ∷ pin unused 0 unused 0
    ∷ pin unused 0 unused 0
    ∷ pin unused 0 unused 0
    ∷ pin unused 0 unused 0
    ∷ pin unused 0 unused 0
    ∷ pin unused 0 unused 0
    ∷ pin 0x0 0 unused 0
    ∷ pin 0x0 4 unused 0
    ∷ pin 0x0 8 unused 0
    ∷ pin 0x0 12 unused 0
    ∷ pin 0x4 0 unused 0
    ∷ pin 0x8 0 unused 0
    ∷ []
