-- ===== src/Spi/Locate.antt =====
-- Bcm2712BootSpiLocate of Bcm2712SpiFlash.c: where the device tree has the boot SPI, with the fixed
-- addresses of the BCM2712 where it does not say.
use rpi5_uefi_build.Common.{
  ℕ, ◌+◌, ◌*◌, ◌/◌, ◌%◌, ◌^◌, true, false, not, Option, none, some, List, [], ◌∷◌, ◌++◌, bit_and,
  ltb, ◌==◌, if◌then◌else◌, u32, u64,
}
use rpi5_uefi_build.Fdt.{FdtLib, Property, cell, address_of, translated_reg, first, or_else}
use rpi5_uefi_build.Spi.{BootSpi}

abbrev pub boot_spi_base : ℕ
boot_spi_base = 0x10_7d00_4000

abbrev pub boot_cs_gio_base : ℕ
boot_cs_gio_base = 0x10_7d50_8500

abbrev pub boot_cs_pin : ℕ
boot_cs_pin = 1

abbrev pub gio_bank_size : ℕ
gio_bank_size = 0x20

abbrev pub gpio_active_low_flag : ℕ
gpio_active_low_flag = 1

-- "brcm,bcm2835-spi"
abbrev pub spi_name : List ℕ
spi_name =
    b'b' ∷ b'r' ∷ b'c' ∷ b'm' ∷ b',' ∷ b'b' ∷ b'c' ∷ b'm' ∷ b'2' ∷ b'8' ∷ b'3' ∷ b'5' ∷ b'-' ∷ b's'
    ∷ b'p' ∷ b'i' ∷ []

abbrev pub cs_gpios_name : List ℕ
cs_gpios_name = b'c' ∷ b's' ∷ b'-' ∷ b'g' ∷ b'p' ∷ b'i' ∷ b'o' ∷ b's' ∷ []

-- "brcm,bcm2712", the stepping, and "-pinctrl".
abbrev pub pinctrl_name : List ℕ → List ℕ
pinctrl_name stepping =
    b'b'
    ∷ b'r'
    ∷ b'c'
    ∷ b'm'
    ∷ b','
    ∷ b'b'
    ∷ b'c'
    ∷ b'm'
    ∷ b'2'
    ∷ b'7'
    ∷ b'1'
    ∷ b'2'
    ∷ (stepping ++ b'-' ∷ b'p' ∷ b'i' ∷ b'n' ∷ b'c' ∷ b't' ∷ b'r' ∷ b'l' ∷ [])

abbrev pub fixed_spi : BootSpi
fixed_spi = record {
  spi_base = boot_spi_base;
  cs_bank_base = boot_cs_gio_base + boot_cs_pin / 32 * gio_bank_size;
  cs_mask = 2 ^ (boot_cs_pin % 32);
  cs_pin = boot_cs_pin;
  cs_active_low = true;
  pinctrl_base = 0;
  is_d0 = false;
}

module _ (fdt : FdtLib) where
  abbrev pub address : ℕ → Option (ℕ × ℕ)
  address node = address_of (translated_reg fdt node)

  -- The chip select at the controller's address.
  abbrev pub chip_select : BootSpi → ℕ → ℕ → Option (ℕ × ℕ) → BootSpi
  chip_select spi pin flags none = spi
  chip_select spi pin flags (some (base, size)) = record spi {
    cs_bank_base = u64 (base + u32 (pin / 32 * gio_bank_size));
    cs_mask = u32 (2 ^ (pin % 32));
    cs_pin = pin;
    cs_active_low = not (bit_and flags gpio_active_low_flag == 0);
  }

  abbrev pub on_controller : Option ℕ → Option (ℕ × ℕ)
  on_controller none = none
  on_controller (some node) = address node

  -- "cs-gpios": the phandle, the pin and the flags.
  abbrev pub with_cs_gpios : BootSpi → Option Property → BootSpi
  with_cs_gpios spi none = spi
  with_cs_gpios spi (some prop) =
      if ltb prop.len 12
      then spi
      else chip_select spi (cell prop.bytes 1) (cell prop.bytes 2)
          (on_controller (fdt.offset_by_phandle (cell prop.bytes 0)))

  abbrev pub with_reg : BootSpi → ℕ → Option (ℕ × ℕ) → BootSpi
  with_reg spi node none = spi
  with_reg spi node (some (base, size)) =
      with_cs_gpios (record spi { spi_base = base }) (fdt.get_prop node cs_gpios_name)

  abbrev pub with_node : BootSpi → Option ℕ → BootSpi
  with_node spi none = spi
  with_node spi (some node) = with_reg spi node (address node)

  abbrev pub with_pinctrl : BootSpi → Option (ℕ × ℕ) → BootSpi
  with_pinctrl spi none = spi
  with_pinctrl spi (some (base, size)) = record spi { pinctrl_base = base }

  -- The D0 pin controller, else the C0 one, else the one of neither name.
  abbrev pub with_stepping : BootSpi → Option ℕ → BootSpi
  with_stepping spi (some node) = with_pinctrl (record spi { is_d0 = true }) (address node)
  with_stepping spi none = with_pinctrl spi (
      on_controller (
        or_else (first (fdt.compatible (pinctrl_name (b'c' ∷ b'0' ∷ []))))
          (first (fdt.compatible (pinctrl_name [])))))

  -- `Bcm2712BootSpiLocate`, which always succeeds.
  unfoldable pub locate : BootSpi
  locate =
      with_stepping (with_node fixed_spi (first (fdt.compatible spi_name)))
        (first (fdt.compatible (pinctrl_name (b'd' ∷ b'0' ∷ []))))
