-- ===== src/PowerButton/Tests.antt =====
-- A text with the flag, banks of 17 and 6 pins, and polls of a device.
use rpi5_uefi_build.Common.{
  ℕ, ◌≡◌, refl, false, true, List, [], ◌∷◌, ◌++◌, length, arith, Mem, ◌==◌, if◌then◌else◌,
}
use rpi5_uefi_build.Common.Mmio.{Device}
use rpi5_uefi_build.Blcfg.Tests.{plain}
use rpi5_uefi_build.PowerButton.{Button, find_bank}
use rpi5_uefi_build.PowerButton.Halt.{halt_key, scan}
use rpi5_uefi_build.PowerButton.Flag.{first_is_set, lines, scan-lines}
use rpi5_uefi_build.PowerButton.Bank.{Located, find_bank-Located}
use rpi5_uefi_build.PowerButton.Runs.{polls, Outcome, polls-Outcome}

-- "UART\nPOWER_OFF_ON_HALT=1\n"
abbrev text : List ℕ
text = b'U' ∷ b'A' ∷ b'R' ∷ b'T' ∷ 10 ∷ (halt_key ++ b'1' ∷ 10 ∷ [])

scan-lines_example : scan plain 30 text ≡ first_is_set (lines text)
scan-lines_example = scan-lines plain 30 text (omega arith)

text_is_set : first_is_set (lines text) ≡ true
text_is_set = refl

-- The cells 17 and 6.
abbrev widths : Mem
widths i = if i == 3 then 17 else if i == 7 then 6 else 0

find_bank-Located_example : Located widths 0 2 0 20 (find_bank widths 2 0 0 20)
find_bank-Located_example = find_bank-Located widths 2 0 0 20

abbrev button : Button
button = record {
  bank_base = 0x10_7d50_8500;
  bit_mask = 0x10_0000;
  active_low = true;
  power_off_on_halt = true;
  triggered = false;
  polling = true;
}

-- The third access finds the edge.
abbrev pulse : Device
pulse = record {
  reply = λ h a. if a == 0x10_7d50_851c then if length h == 2 then 0x10_0000 else 0 else 0x1f_ffff;
}

polls-Outcome_example : Outcome pulse 5 button [] (polls pulse 5 button []).0
polls-Outcome_example = polls-Outcome pulse 5 button [] refl
