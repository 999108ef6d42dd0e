-- ===== src/Fan.antt =====
-- Platform/RaspberryPi/RPi5/Drivers/ActiveCoolerDxe/ActiveCoolerDxe.c (under
-- meta-rpi5-uefi/recipes-bsp/edk2-platforms/files/edk2-platforms): the fan control loop.
-- The driver's static variables are a record; -1 in `mLevel` and `mOverride` is `none`.
pub mod Policy
pub mod Hardware
pub mod Loop
pub mod Settle
pub mod Tick
pub mod Reach
pub mod Override
pub mod Control
pub mod Tests
use Policy.{FanPolicy, Variable, read_policy, is_custom, trip_milli_c, duty255, level_max}
use Policy
use Hardware.{set_level, hw_init, avs_read_milli_c}
use rpi5_uefi_build.Common.{
  ℕ, zero, suc, ◌+◌, ◌-◌, Bool, true, false, Option, none, some, ltb, leb, ◌==◌, not, if◌then◌else◌,
}
use rpi5_uefi_build.Common.Int.{ℤ, pos, leb_ℤ, sub_ℕ}
use rpi5_uefi_build.Common.Mmio.{Device, M, pure, ◌>>=◌, ◌>>◌}

pub record Fan : Type 0 where
  pub rp1_base : ℕ
  pub level : Option ℕ
  pub override : Option ℕ
  pub policy : FanPolicy
  -- The poll timer is armed.
  pub polling : Bool

-- What a tick finds outside the driver: the RP1 protocol, if it is there, and the FanPolicy variable.
pub record World : Type 0 where
  pub device : Device
  pub rp1 : Option ℕ
  pub variable : Variable

-- The search from the top level down for a trip at or below the temperature.
unfoldable pub target_level : FanPolicy → ℤ → ℕ → ℕ
target_level p t zero = 0
target_level p t (suc k) =
    let lower = target_level p t k in
    if leb_ℤ (pos (trip_milli_c p (suc k))) t then suc k else lower

-- The level that the closed loop commands at temperature `t`.
unfoldable pub next_level : FanPolicy → ℤ → Option ℕ → ℕ
next_level p t none = target_level p t level_max
next_level p t (some level) =
    let target = target_level p t level_max in
    if ltb target level
    then if leb_ℤ (sub_ℕ (trip_milli_c p level) Policy.hyst_milli_c) t then level else level - 1
    else target

abbrev pub is_level : Option ℕ → ℕ → Bool
is_level none n = false
is_level (some level) n = level == n

-- `mLevel < n`, for n of 0 or more.
abbrev pub below_level : Option ℕ → ℕ → Bool
below_level none n = true
below_level (some level) n = ltb level n

module _ (device : Device) where
  -- `FanSetLevel`
  unfoldable pub command : Fan → ℕ → M Fan
  command s level = do set_level device s.rp1_base level; pure (record s { level = some level })

  -- A level is commanded only if it is not the current one.
  unfoldable pub command_new : Fan → ℕ → M Fan
  command_new s level = if is_level s.level level then pure s else command s level

  -- `FanPollTick` behind the reading of the sensor.
  unfoldable pub regulate_at : Fan → Option ℤ → M Fan
  regulate_at s none =
      if below_level s.level Policy.level_safe then command s Policy.level_safe else pure s
  regulate_at s (some t) = command_new s (next_level s.policy t s.level)

  unfoldable pub regulate : Fan → M Fan
  regulate s = do reading ← avs_read_milli_c device; regulate_at s reading

  -- `FanPollTick` behind the policy: override, fixed level, closed loop.
  unfoldable pub decide_by : Fan → Option ℕ → M Fan
  decide_by s (some level) = command_new s level
  decide_by s none =
      if s.policy.mode == Policy.mode_fixed then command_new s s.policy.fixed_level else regulate s

  abbrev pub decide : Fan → M Fan
  decide s = decide_by s s.override

-- The hardware is brought up when the RP1 protocol first appears.
unfoldable pub bring_up : Device → Fan → Option ℕ → M (Option Fan)
bring_up device s none = pure none
bring_up device s (some base) = do hw_init device base; pure (some (record s { rp1_base = base }))

-- The start of `FanPollTick`; `none` while the RP1 is not there.
unfoldable pub acquire : World → Fan → M (Option Fan)
unfolding bring_up
acquire w s = if s.rp1_base == 0 then bring_up w.device s w.rp1 else pure (some s)

unfoldable pub tick_ready : World → Fan → Option Fan → M Fan
tick_ready w s none = pure s
tick_ready w s (some s') = decide w.device (record s' { policy = read_policy w.variable })

-- `FanPollTick`
unfoldable pub poll_tick : World → Fan → M Fan
unfolding tick_ready
poll_tick w s = do ready ← acquire w s; tick_ready w s ready
