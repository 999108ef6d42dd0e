-- ===== src/PowerButton.antt =====
-- Platform/RaspberryPi/RPi5/Drivers/PowerButtonDxe/PowerButtonDxe.c (under meta-rpi5-uefi/recipes-bsp/
-- edk2-platforms/files/edk2-platforms): the power button. The static variables are a record; the
-- device tree's library and the results of CreateEvent and SetTimer are parameters.
pub mod Halt
pub mod Flag
pub mod Bank
pub mod Runs
pub mod Tests
use rpi5_uefi_build.Common.{
  ℕ, zero, suc, ◌+◌, ◌-◌, ◌*◌, ◌/◌, ◌%◌, ◌^◌, Bool, true, false, not, ◌&&◌, ◌||◌, Option, none,
  some, List, [], ◌∷◌, bit_and, ltb, leb, ◌==◌, if◌then◌else◌, u32, u64, not32, Mem,
}
use rpi5_uefi_build.Common.Mmio.{Device, M, pure, read32, write32, or32, and32, ◌>>=◌, ◌>>◌}
use rpi5_uefi_build.Blcfg.{CompareLib}
use rpi5_uefi_build.Fdt
use rpi5_uefi_build.Fdt.{Property, FdtLib, cell, address_of, translated_reg}
use Halt.{read_power_off_on_halt}

abbrev pub gio_bank_size : ℕ
gio_bank_size = 0x20

abbrev pub gio_reg_data : ℕ
gio_reg_data = 0x04

abbrev pub gio_reg_iodir : ℕ
gio_reg_iodir = 0x08

abbrev pub gio_reg_ec : ℕ
gio_reg_ec = 0x0c

abbrev pub gio_reg_ei : ℕ
gio_reg_ei = 0x10

abbrev pub gio_reg_mask : ℕ
gio_reg_mask = 0x14

abbrev pub gio_reg_stat : ℕ
gio_reg_stat = 0x1c

abbrev pub gpio_active_low : ℕ
gpio_active_low = 1

-- The static variables; `polling` is whether the timer is set.
pub record Button : Type 0 where
  pub bank_base : ℕ
  pub bit_mask : ℕ
  pub active_low : Bool
  pub power_off_on_halt : Bool
  pub triggered : Bool
  pub polling : Bool

-- What ResetSystem is called with.
pub data Reset : Type 0 where
  shutdown cold : Reset

abbrev pub reg : Button → ℕ → ℕ
reg b offset = u64 (b.bank_base + offset)

-- Whether the level of the pin is that of a press.
abbrev pub is_pressed_level : Button → ℕ → Bool
is_pressed_level b level =
    if b.active_low then bit_and level b.bit_mask == 0 else not (bit_and level b.bit_mask == 0)

abbrev pub action : Button → Reset
action b = if b.power_off_on_halt then shutdown else cold

abbrev pub release : Button → Bool → Button × Option Reset
release b pressed =
    if not pressed
    then (b, none)
    else (record b { triggered = true; polling = false }, some (action b))

module _ (device : Device) where
  -- The latched edge, else the level.
  unfoldable pub sample : Button → M Bool
  sample b = do
    stat ← read32 device (reg b gio_reg_stat)
    (if not (bit_and stat b.bit_mask == 0)
        then (write32 (reg b gio_reg_stat) b.bit_mask >> pure true)
        else (read32 device (reg b gio_reg_data) >>= λ level. pure (is_pressed_level b level)))

  -- `PowerButtonPoll`, with what it calls ResetSystem with.
  unfoldable pub poll : Button → M (Button × Option Reset)
  poll b =
      if b.triggered then pure (b, none) else (sample b >>= λ pressed. pure (release b pressed))

  -- The configuration of the pin in the entry point.
  unfoldable pub arm : Button → M (Unit {0})
  arm b = do
    or32 device (reg b gio_reg_iodir) b.bit_mask
    (if b.active_low
        then and32 device (reg b gio_reg_ec) (not32 b.bit_mask)
        else or32 device (reg b gio_reg_ec) b.bit_mask)
    and32 device (reg b gio_reg_ei) (not32 b.bit_mask)
    or32 device (reg b gio_reg_mask) b.bit_mask
    write32 (reg b gio_reg_stat) b.bit_mask

-- The widths of "brcm,gpio-bank-widths" that are left, from cell `i` on: the bank and the offset in it.
unfoldable pub find_bank : Mem → ℕ → ℕ → ℕ → ℕ → Option (ℕ × ℕ)
find_bank widths zero i bank offset = none
find_bank widths (suc left) i bank offset =
    let rest = find_bank widths left (i + 1) (bank + 1) (offset - cell widths i) in
    if ltb offset (cell widths i) then some (bank, offset) else rest

-- Without widths the banks have 32 bits.
unfoldable pub locate : Option Property → ℕ → Option (ℕ × ℕ)
locate none gpio = some (gpio / 32, gpio % 32)
locate (some widths) gpio =
    if leb 4 widths.len
    then find_bank widths.bytes (widths.len / 4) 0 0 gpio
    else some (gpio / 32, gpio % 32)

-- The controller's node, the GPIO's number and the specifier's flags.
pub record Specifier : Type 0 where
  pub controller : ℕ
  pub gpio : ℕ
  pub flags : ℕ

-- The characters before the NUL.
abbrev pub text_of : Mem → ℕ → ℕ → List ℕ
text_of p i zero = []
text_of p i (suc n) = let rest = text_of p (i + 1) n in if p i == 0 then [] else p i ∷ rest

abbrev pub gpio_keys_name : List ℕ
gpio_keys_name = b'g' ∷ b'p' ∷ b'i' ∷ b'o' ∷ b'-' ∷ b'k' ∷ b'e' ∷ b'y' ∷ b's' ∷ []

abbrev pub label_name : List ℕ
label_name = b'l' ∷ b'a' ∷ b'b' ∷ b'e' ∷ b'l' ∷ []

abbrev pub pwr_button_name : List ℕ
pwr_button_name = b'p' ∷ b'w' ∷ b'r' ∷ b'_' ∷ b'b' ∷ b'u' ∷ b't' ∷ b't' ∷ b'o' ∷ b'n' ∷ []

abbrev pub gpios_name : List ℕ
gpios_name = b'g' ∷ b'p' ∷ b'i' ∷ b'o' ∷ b's' ∷ []

-- "#gpio-cells"
abbrev pub gpio_cells_name : List ℕ
gpio_cells_name = b'#' ∷ b'g' ∷ b'p' ∷ b'i' ∷ b'o' ∷ b'-' ∷ b'c' ∷ b'e' ∷ b'l' ∷ b'l' ∷ b's' ∷ []

-- "brcm,gpio-bank-widths"
abbrev pub bank_widths_name : List ℕ
bank_widths_name =
    b'b' ∷ b'r' ∷ b'c' ∷ b'm' ∷ b',' ∷ b'g' ∷ b'p' ∷ b'i' ∷ b'o' ∷ b'-' ∷ b'b' ∷ b'a' ∷ b'n' ∷ b'k'
    ∷ b'-' ∷ b'w' ∷ b'i' ∷ b'd' ∷ b't' ∷ b'h' ∷ b's' ∷ []

module _ (lib : CompareLib) (fdt : FdtLib) where
  abbrev pub is_power_button : Option Property → Bool
  is_power_button none = false
  is_power_button (some label) =
      lib.ascii_str_cmp (text_of label.bytes 0 label.len) pwr_button_name == 0

  -- The flags are the last cell of the specifier, from two cells on.
  abbrev pub specifier : Mem → ℕ → ℕ → ℕ → Option Specifier
  specifier gpios len controller cells =
      if (ltb cells 1 || ltb 3 cells) || ltb len ((1 + cells) * 4)
      then none
      else some (record {
        controller = controller;
        gpio = cell gpios 1;
        flags = if leb 2 cells then cell gpios cells else 0;
      })

  -- The "gpios" of the button's node.
  unfoldable pub button_at : ℕ → Option Specifier
  button_at node = Fdt.◌>>=◌ (fdt.get_prop node gpios_name) λ gpios.
      if ltb gpios.len 8
      then none
      else Fdt.◌>>=◌ (fdt.offset_by_phandle (cell gpios.bytes 0)) λ controller.
        Fdt.◌>>=◌ (fdt.get_prop controller gpio_cells_name) λ cells.
          if not (cells.len == 4)
          then none
          else specifier gpios.bytes gpios.len controller (cell cells.bytes 0)

  -- The first button among the nodes, if there is one.
  unfoldable pub find_button : List ℕ → Option ℕ
  find_button [] = none
  find_button (node ∷ nodes) =
      let rest = find_button nodes in
      if is_power_button (fdt.get_prop node label_name) then some node else rest

  unfoldable pub find_in_keys : List ℕ → Option ℕ
  find_in_keys [] = none
  find_in_keys (keys ∷ nodes) =
      let rest = find_in_keys nodes in
      elim (find_button (fdt.subnodes keys)) [ none ↦ rest | some node ↦ some node ]

  -- `FindPowerButton`
  unfoldable pub find_power_button : Option Specifier
  find_power_button = Fdt.◌>>=◌ (find_in_keys (fdt.compatible gpio_keys_name)) button_at

  -- What the entry point reads before it touches the pin; `none` is EFI_NOT_FOUND. The bit is 1U << Offset.
  unfoldable pub prepare : Bool → Mem → Bool → Option Button
  prepare header_ok memory pool =
      if not header_ok
      then none
      else Fdt.◌>>=◌ find_power_button λ button.
        Fdt.◌>>=◌ (address_of (translated_reg fdt button.controller)) λ gio.
          Fdt.◌>>=◌ (locate (fdt.get_prop button.controller bank_widths_name) button.gpio) λ place.
            some (record {
              bank_base = u64 (gio.0 + u32 (place.0 * gio_bank_size));
              bit_mask = u32 (2 ^ place.1);
              active_low = not (bit_and button.flags gpio_active_low == 0);
              power_off_on_halt = read_power_off_on_halt lib fdt memory pool;
              triggered = false;
              polling = false;
            })

-- EFI_STATUS: what the entry point returns, or what CreateEvent or SetTimer returned.
pub data Status : Type 0 where
  success not_found failed : Status

abbrev pub start : Device → Option Button → Bool → Bool → M (Status × Option Button)
start device none created set = pure (not_found, none)
start device (some b) created set =
    arm device b
    >> pure (
        if not created
        then (failed, some b)
        else if not set
        then (failed, some b)
        else (success, some (record b { polling = true })))

-- `PowerButtonEntryPoint`, with whether CreateEvent and SetTimer succeed.
unfoldable pub power_button_entry_point :
    Device → CompareLib → FdtLib → Bool → Mem → Bool → Bool → Bool → M (Status × Option Button)
power_button_entry_point device lib fdt header_ok memory pool created set =
    start device (prepare lib fdt header_ok memory pool) created set
