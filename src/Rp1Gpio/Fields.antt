-- ===== src/Rp1Gpio/Fields.antt =====
-- Which registers the functions of Rp1GpioLib.c write for a pin.
use rpi5_uefi_build.Common.{ℕ, ◌+◌, ◌^◌, ◌<◌, ◌≡◌, ◌≢◌, sym, ◌⊎◌, arith, List, [], ◌∷◌, All, u64}
use rpi5_uefi_build.Common.Mmio.{Device, History, rd, wr}
use rpi5_uefi_build.Rp1Gpio.{
  locate_pin, set_function, set_pull, Pull, pads_bank0_base, io_bank0_base, pads_pin_offset,
  io_ctrl_offset,
}

-- RP1_GPIO_COUNT
abbrev pub gpio_count : ℕ
gpio_count = 54

-- The addresses that a history writes.
abbrev pub written : History → List ℕ
written [] = []
written (rd a v ∷ h) = written h
written (wr a v ∷ h) = a ∷ written h

-- No address of the one list is in the other.
abbrev pub Apart : List ℕ → List ℕ → Type 0
Apart l k = All (λ a. All (λ b. a ≢ b) k) l

-- The bank windows hold the local pins of their banks only.
locate_pin-range :
    (pin : ℕ)
    → pin < gpio_count
    → ((locate_pin pin).0 ≡ 0) × ((locate_pin pin).1 ≡ pin) × (pin < 28)
      ⊎ ((locate_pin pin).0 ≡ 0x4000) × ((locate_pin pin).1 + 28 ≡ pin) × (pin < 34)
      ⊎ ((locate_pin pin).0 ≡ 0x8000) × ((locate_pin pin).1 + 34 ≡ pin)
unfolding locate_pin
locate_pin-range pin h = ground arith

-- The pad and the CTRL register of one pin are different from those of any other, and from the RIO
-- registers of every bank.
module _ (base pin other : ℕ) (low : base < 2 ^ 62) (here : pin < gpio_count)
    (there : other < gpio_count) where
  pads_apart :
      pin ≢ other
      → u64 (base + pads_bank0_base + (locate_pin pin).0 + pads_pin_offset (locate_pin pin).1)
        ≢ u64 (base + pads_bank0_base + (locate_pin other).0 + pads_pin_offset (locate_pin other).1)
  pads_apart ne = ground (arith, locate_pin-range pin here, locate_pin-range other there)

  ctrl_apart :
      pin ≢ other
      → u64 (base + io_bank0_base + (locate_pin pin).0 + io_ctrl_offset (locate_pin pin).1)
        ≢ u64 (base + io_bank0_base + (locate_pin other).0 + io_ctrl_offset (locate_pin other).1)
  ctrl_apart ne = ground (arith, locate_pin-range pin here, locate_pin-range other there)

  windows_apart :
      u64 (base + pads_bank0_base + (locate_pin pin).0 + pads_pin_offset (locate_pin pin).1)
      ≢ u64 (base + io_bank0_base + (locate_pin other).0 + io_ctrl_offset (locate_pin other).1)
  windows_apart = ground (arith, locate_pin-range pin here, locate_pin-range other there)

-- For two different pins below RP1_GPIO_COUNT and a peripheral base below 2 ^ 62: configuring the
-- one, function and pull, writes no register that configuring the other writes.
pub set_function-set_pull-Apart :
    (dev dev' : Device) (base pin other function function' : ℕ) (pull pull' : Pull)
    → base < 2 ^ 62
    → pin < gpio_count
    → other < gpio_count
    → pin ≢ other
    → Apart
        (written (set_pull dev base pin pull (set_function dev base pin function []).1).1)
        (written (set_pull dev' base other pull' (set_function dev' base other function' []).1).1)
unfolding set_function set_pull
set_function-set_pull-Apart dev dev' base pin other function function' pull pull' low here there
      ne =
    let pads = pads_apart base pin other low here there ne in
    let ctrl = ctrl_apart base pin other low here there ne in
    let cross = windows_apart base pin other low here there in
    let back = windows_apart base other pin low there here in
    (
      (pads, (cross, (pads, tt))),
      (((λ e. back (sym e)), (ctrl, ((λ e. back (sym e)), tt))), ((pads, (cross, (pads, tt))), tt)),
    )
