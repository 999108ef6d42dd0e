-- ===== src/Fan/Tests.antt =====
-- A sample policy, device and event sequence for the fan control of ActiveCoolerDxe.c.
use rpi5_uefi_build.Common.{ℕ, ◌≤◌, ◌≡◌, refl, arith, none, some, []}
use rpi5_uefi_build.Common.Int.{pos}
use rpi5_uefi_build.Common.Mmio.{Device}
use rpi5_uefi_build.Fan.{Fan, World, next_level, poll_tick}
use rpi5_uefi_build.Fan.Control.{set_override, on_exit_boot_services, loaded}
use rpi5_uefi_build.Fan.Loop.{IsSane}
use rpi5_uefi_build.Fan.Policy.{FanPolicy, value, read_policy, level_max}
use rpi5_uefi_build.Fan.Reach.{here, next, tick, pin, exit, reachable-IsSafe}
use rpi5_uefi_build.Fan.Settle.{IsNext, next_level-IsNext, rounds, next_level_settles}
use rpi5_uefi_build.Fan.Tick.{
  IsSafe, IsDecided, Reaches, stores, reading_after, poll_tick-IsDecided,
}

abbrev custom : FanPolicy
custom = record {
  mode = 2;
  fixed_level = 1;
  trip1_c = 40;
  trip2_c = 50;
  trip3_c = 60;
  trip4_c = 70;
}

-- The sensor answers with a valid reading of 500, which is 175000 millidegrees.
abbrev device : Device
device = record { reply = λ h a. 0x1_05f4 }

abbrev world : World
world = record { device = device; rp1 = some 0x1f_0000_0000; variable = value 6 custom }

-- The driver after it has met the RP1.
abbrev running : Fan
running = record loaded { rp1_base = 0x1f_0000_0000; level = some 2 }

custom-IsSane : IsSane custom
custom-IsSane = ground arith

known-running : (l : ℕ) → some 4 ≡ some l → l ≤ level_max
known-running l e = ground arith

next_level-IsNext_example :
    IsNext custom (pos 61000) (some 4) (next_level custom (pos 61000) (some 4))
next_level-IsNext_example = next_level-IsNext custom (pos 61000) (some 4) known-running

next_level_settles_example :
    next_level custom (pos 45000) (some (rounds custom (pos 45000) 5 4))
    ≡ rounds custom (pos 45000) 5 4
next_level_settles_example = next_level_settles custom (pos 45000) 4 (omega arith)

poll_tick-IsDecided_example :
    let (s', h') = poll_tick world running [] in
    (s' ≡ record running { level = s'.level; policy = read_policy (value 6 custom) })
    × IsDecided (read_policy (value 6 custom)) (reading_after device []) (some 2) none s'.level
    × Reaches 0x1f_0000_0000 (some 2) s'.level [] (stores h')
poll_tick-IsDecided_example =
    poll_tick-IsDecided world running [] (λ e. absurd (omega arith)) (λ l e. ground arith)

-- A tick, an override, and the hand-over.
abbrev after_tick : Fan
after_tick = (poll_tick world loaded []).0

abbrev after_pin : Fan
after_pin = (set_override device after_tick 3 []).0.1

abbrev handed_over : Fan
handed_over = (on_exit_boot_services device after_pin []).0

reachable-IsSafe_example : IsSafe handed_over
reachable-IsSafe_example =
    reachable-IsSafe handed_over (
      next (next (next here (tick world [] refl refl)) (pin device 3 [] refl))
        (exit device [] refl))
