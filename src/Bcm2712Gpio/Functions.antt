-- ===== src/Bcm2712Gpio/Functions.antt =====
-- GpioSetFunction and GpioGetFunction of Bcm2712GpioLib.c: setting the function of one pin and reading
-- that of another.
use rpi5_uefi_build.Common.{
  ℕ, zero, suc, ◌*◌, ◌/◌, ◌<◌, ◌≤◌, ◌≡◌, ◌≢◌, refl, sym, ◌∙◌, ap, ap₂, Bool, true, false, not, ◌&&◌,
  ◌||◌, List, [], ◌∷◌, ltb, ◌==◌, if◌then◌else◌, arith, u32, length, Option, none, some, bit_and,
  bit_or, ◌^◌,
}
use rpi5_uefi_build.Common.Bits.{holds_below, holds_below-at}
use rpi5_uefi_build.Common.Mmio.{Device, History, rd, wr}
use rpi5_uefi_build.Bcm2712Gpio.{
  Controller, gio, gio_aon, other_controller, cleared, field, fsel_mask, registers, nth,
  pin_registers, gpio_get_function, gpio_set_function, reg_address,
}
use rpi5_uefi_build.Rp1Gpio.Fields.{written}
use rpi5_uefi_build.Bcm2712Gpio.Tables.{PinRegisters, unused}
use rpi5_uefi_build.Bcm2712Gpio.Fields.{field-replaced}

-- Two pins that share a register have different fields, at multiples of four.
abbrev apart : ℕ → ℕ → PinRegisters → PinRegisters → Bool
apart pin other r s =
    r.mux_reg == unused
    || not (r.mux_reg == s.mux_reg)
    || r.mux_bit == 4 * (r.mux_bit / 4)
      && s.mux_bit == 4 * (s.mux_bit / 4)
      && ltb r.mux_bit 32
      && ltb s.mux_bit 32
      && (if pin == other then r.mux_bit == s.mux_bit else not (r.mux_bit == s.mux_bit))

abbrev apart_at : ℕ → ℕ → Option PinRegisters → Option PinRegisters → Bool
apart_at pin other none s = true
apart_at pin other (some r) none = true
apart_at pin other (some r) (some s) = apart pin other r s

abbrev apart_pins : Controller → ℕ → ℕ → Bool
apart_pins type pin other =
    apart_at pin other (nth (registers type) pin) (nth (registers type) other)

tables_apart :
    (type : Controller) → holds_below (λ pin. holds_below (apart_pins type pin) 47) 47 ≡ true
tables_apart gio = refl
tables_apart gio_aon = refl
tables_apart other_controller = refl

nth-bound : (rs : List PinRegisters) (n : ℕ) {r : PinRegisters} → nth rs n ≡ some r → n < length rs
nth-bound [] n h = absurd (cc)
nth-bound (r ∷ rs) zero h = omega arith
nth-bound (r ∷ rs) (suc n) h = let less = nth-bound rs n h in omega arith

registers_le : (type : Controller) → length (registers type) ≤ 47
registers_le gio = omega arith
registers_le gio_aon = omega arith
registers_le other_controller = omega arith

module _ (type : Controller) (pin other : ℕ) (r s : PinRegisters)
    (here : pin_registers type pin ≡ some r) (there : pin_registers type other ≡ some s) where
  pins_apart : apart pin other r s ≡ true
  unfolding pin_registers
  pins_apart =
      let small = nth-bound (registers type) pin here in
      let little = nth-bound (registers type) other there in
      let known =
        holds_below-at (apart_pins type pin) 47 other
          (holds_below-at (λ p. holds_below (apart_pins type p) 47) 47 pin (tables_apart type)
            (omega (arith, registers_le type)))
          (omega (arith, registers_le type)) in
      rw (here, there) at known

-- The value of a register as the last access of it has it.
abbrev pub value_at : History → ℕ → ℕ
value_at [] a = 0
value_at (rd b v ∷ h) a = if a == b then v else value_at h a
value_at (wr b v ∷ h) a = if a == b then v else value_at h a

set_run :
    (type : Controller) (pin : ℕ) (r : PinRegisters) (device : Device) (function : ℕ) (h : History)
    → pin_registers type pin ≡ some r
    → r.mux_reg ≢ unused
    → let a = reg_address device type r.mux_reg in
      let old = u32 (device.reply h a) in
      gpio_set_function device type pin function h ≡ (
        tt,
        wr a (bit_or (bit_and old (cleared fsel_mask r.mux_bit)) (u32 (function * 2 ^ r.mux_bit)))
            ∷ rd a old
            ∷ h,
      )
unfolding gpio_set_function
set_run type pin r device function h here used =
    let set : (r.mux_reg == unused) ≡ false = ground arith in rw (here, set) refl

get_run :
    (type : Controller) (pin : ℕ) (r : PinRegisters) (device : Device) (h : History)
    → pin_registers type pin ≡ some r
    → r.mux_reg ≢ unused
    → (gpio_get_function device type pin h).0
      ≡ field fsel_mask r.mux_bit (u32 (device.reply h (reg_address device type r.mux_reg)))
unfolding gpio_get_function
get_run type pin r device h here used =
    let set : (r.mux_reg == unused) ≡ false = ground arith in rw (here, set) refl

-- Where the fields of two pins of one register are.
placed :
    (pin other : ℕ) (r s : PinRegisters)
    → apart pin other r s ≡ true
    → r.mux_reg ≢ unused
    → s.mux_reg ≡ r.mux_reg
    → (r.mux_bit ≡ 4 * (r.mux_bit / 4))
      × (s.mux_bit ≡ 4 * (s.mux_bit / 4))
      × (r.mux_bit < 32)
      × (s.mux_bit < 32)
      × ((r.mux_bit / 4 == s.mux_bit / 4) ≡ (pin == other))
placed pin other r s known used shared = ground arith

value_written :
    {h : History} {a v old : ℕ} {y : Unit {0} × History}
    → y ≡ (tt, wr a v ∷ rd a old ∷ h)
    → value_at y.1 a ≡ v
value_written {a = a} e = let same : (a == a) ≡ true = ground arith in rw (e, same) refl

-- For a pin and any other (or the same) that share a function register, of which the table has
-- one, and a function below 16: GpioSetFunction writes that register alone, and of a device where
-- it holds what was written, GpioGetFunction reads the new function for the pin, and for the
-- other what it read before.
pub gpio_set_function-SetAlone :
    (type : Controller) (pin other : ℕ) (r s : PinRegisters) (device device' : Device)
    (function : ℕ) (h h' : History)
    → pin_registers type pin ≡ some r
    → pin_registers type other ≡ some s
    → r.mux_reg ≢ unused
    → s.mux_reg ≡ r.mux_reg
    → function < 16
    → u32 (device'.reply h' (reg_address device type r.mux_reg))
      ≡ value_at
          (gpio_set_function device type pin function h).1
          (reg_address device type r.mux_reg)
    → (written (gpio_set_function device type pin function h).1
        ≡ reg_address device type r.mux_reg ∷ written h)
      × ((gpio_get_function device' type other h').0
          ≡ (if pin == other then function else (gpio_get_function device type other h).0))
unfolding gpio_set_function gpio_get_function
gpio_set_function-SetAlone type pin other r s device device' function h h' here there used shared
      nibble held =
    let (at_four, other_at_four, low, other_low, fields) =
      placed pin other r s (pins_apart type pin other r s here there) used shared in
    let i = r.mux_bit / 4 in
    let j = s.mux_bit / 4 in
    let old = u32 (device.reply h (reg_address device type r.mux_reg)) in
    let run = set_run type pin r device function h here used in
    let own : s.mux_reg ≢ unused = λ e. used (sym shared ∙ e) in
    let before =
      get_run type other s device h there own
      ∙ ap (λ m. field fsel_mask s.mux_bit (u32 (device.reply h (reg_address device type m))))
          shared in
    let after =
      get_run type other s device' h' there own
      ∙ ap (λ m. field fsel_mask s.mux_bit (u32 (device'.reply h' (reg_address device type m))))
          shared in
    let value = held ∙ value_written run in
    let moved =
      ap₂
        (λ m n.
          field fsel_mask n (bit_or (bit_and old (cleared fsel_mask m)) (u32 (function * 2 ^ m))))
        at_four other_at_four in
    let set = field-replaced i j function old (omega arith) (omega arith) nibble in
    let back =
      ap₂ (λ b n. if b then function else field fsel_mask n old) fields (sym other_at_four) in
    let kept = ap (λ (v : ℕ). if pin == other then function else v) (sym before) in
    (rw run refl, after ∙ ap (field fsel_mask s.mux_bit) value ∙ moved ∙ set ∙ back ∙ kept)
