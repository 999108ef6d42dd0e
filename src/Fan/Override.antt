-- ===== src/Fan/Override.antt =====
-- The override of RPI_FAN_PROTOCOL, the hand-over at ExitBootServices and the duty cycle, of
-- ActiveCoolerDxe.c.
use rpi5_uefi_build.Common.{
  ℕ, zero, suc, ◌≤◌, ◌<◌, ◌≡◌, ◌≢◌, refl, arith, true, false, Option, none, some, ltb, ◌==◌,
  Bool-cases, ◌||◌, inl, inr,
}
use Prim.Native.Nat.{max}
use rpi5_uefi_build.Common.Mmio.{Device, History}
use rpi5_uefi_build.Fan.{Fan, World, poll_tick, is_level, below_level}
use rpi5_uefi_build.Fan.Policy.{level_max, duty255, read_policy}
use rpi5_uefi_build.Fan.Hardware.{duty_ticks, fan_pwm_range_ticks}
use rpi5_uefi_build.Fan.Control.{
  success, invalid_parameter, set_override, on_exit_boot_services, stage,
}
use rpi5_uefi_build.Fan.Tick.{command-state, is_level-eq, poll_tick-state}

-- Each level of the table but the highest has a shorter duty than the next, whose duty fits the
-- PWM range.
pub duty_ticks_rise :
    (k : ℕ)
    → k < level_max
    → (duty_ticks k < duty_ticks (suc k)) × (duty_ticks (suc k) ≤ fan_pwm_range_ticks)
unfolding duty_ticks duty255
duty_ticks_rise zero h = omega arith
duty_ticks_rise (suc zero) h = omega arith
duty_ticks_rise (suc (suc zero)) h = omega arith
duty_ticks_rise (suc (suc (suc zero))) h = omega arith
duty_ticks_rise (suc (suc (suc (suc k)))) h = absurd (omega arith)

module _ (device : Device) (s : Fan) (n : ℕ) (h : History) where
  stage-level : s.rp1_base ≢ 0 → (stage device s n h).0 ≡ record s { level = some n }
  unfolding stage
  stage-level up = elim (Bool-cases (is_level s.level n)) [
    | inl same ↦
        let go : (s.rp1_base == 0 || is_level s.level n) ≡ true = ground arith in
        rw go (λ i. record s { level = is_level-eq s.level n same i })
    | inr new ↦
        let go : (s.rp1_base == 0 || is_level s.level n) ≡ false = ground arith in
        rw (go, command-state device s n h)
  ]

-- What `FanSetOverride` leaves when the hardware is up.
set_override-state :
    (device : Device) (s : Fan) (n : ℕ) (h : History)
    → s.rp1_base ≢ 0
    → n ≤ level_max
    → (set_override device s n h).0 ≡ (success, record s { level = some n; override = some n })
unfolding set_override
set_override-state device s n h up small =
    let low : ltb level_max n ≡ false = ground arith in
    rw (low, stage-level device (record s { override = some n }) n h up)

-- With the RP1 up, an override of a level of the table is accepted and commanded at once, and
-- every later tick leaves it in place, whatever the policy variable and the sensor say.
pub set_override-poll_tick :
    (device : Device) (w : World) (s : Fan) (n : ℕ) (h h' : History)
    → s.rp1_base ≢ 0
    → n ≤ level_max
    → let ((status, s'), _) = set_override device s n h in
      (status ≡ success)
      × (s'.level ≡ some n)
      × ((poll_tick w s' h').0 ≡ record s' { policy = read_policy w.variable })
set_override-poll_tick device w s n h h' up small =
    rw (set_override-state device s n h up small)
      (refl, refl, poll_tick-state w (record s { level = some n; override = some n }) h' up)

-- An override above the highest level is rejected; the driver's variables are as they were and no
-- register is accessed.
pub set_override-rejected :
    (device : Device) (s : Fan) (n : ℕ) (h : History)
    → level_max < n
    → set_override device s n h ≡ ((invalid_parameter, s), h)
unfolding set_override
set_override-rejected device s n h big = let high : ltb level_max n ≡ true = ground arith in rw high

abbrev pub level_or : Option ℕ → ℕ
level_or none = 0
level_or (some l) = l

floored-low : (o : Option ℕ) → below_level o 1 ≡ true → some 1 ≡ some (max 1 (level_or o))
floored-low none e = refl
floored-low (some l) e = ground arith

floored-high : (o : Option ℕ) → below_level o 1 ≡ false → o ≡ some (max 1 (level_or o))
floored-high none e = absurd (cc)
floored-high (some l) e = ground arith

-- At ExitBootServices, with the RP1 up, the poll stops and the fan is handed over at the level
-- that it had, but at level 1 at least.
pub on_exit_boot_services-floored :
    (device : Device) (s : Fan) (h : History)
    → s.rp1_base ≢ 0
    → (on_exit_boot_services device s h).0
      ≡ record s { polling = false; level = some (max 1 (level_or s.level)) }
unfolding on_exit_boot_services
on_exit_boot_services-floored device s h up =
    let down : (s.rp1_base == 0) ≡ false = ground arith in
    elim (Bool-cases (below_level s.level 1)) [
      | inl low ↦
          rw (down, low, command-state device (record s { polling = false }) 1 h)
            (λ i. record s { polling = false; level = floored-low s.level low i })
      | inr high ↦
          rw (down, high) (λ i. record s { polling = false; level = floored-high s.level high i })
    ]
