-- ===== src/Fan/Control.antt =====
-- RPI_FAN_PROTOCOL, the ExitBootServices handler and the entry point of ActiveCoolerDxe.c.
use rpi5_uefi_build.Common.{
  ℕ, Bool, true, false, Option, none, some, ltb, ◌==◌, ◌||◌, if◌then◌else◌,
}
use rpi5_uefi_build.Common.Int.{ℤ, pos}
use rpi5_uefi_build.Common.Mmio.{Device, M, pure, ◌>>=◌}
use rpi5_uefi_build.Fan.{Fan, command, is_level, below_level}
use rpi5_uefi_build.Fan.Policy
use rpi5_uefi_build.Fan.Policy.{level_max, duty255, zeroed_policy}
use rpi5_uefi_build.Fan.Hardware.{avs_read_milli_c}

pub data Status : Type 0 where
  success invalid_parameter not_ready : Status

-- RPI_FAN_INFO
pub record FanInfo : Type 0 where
  pub temperature_milli_c : ℤ
  pub temperature_valid : Bool
  pub level : ℕ
  pub max_level : ℕ
  pub duty255 : ℕ
  pub override_active : Bool

abbrev pub is_some : Option ℕ → Bool
is_some none = false
is_some (some n) = true

abbrev pub or_zero : Option ℕ → ℕ
or_zero none = 0
or_zero (some n) = n

-- The fields of the reply but the temperature.
info_of : Fan → Option ℤ → FanInfo
info_of s reading = record {
  temperature_milli_c = elim reading [ none ↦ pos 0 | some t ↦ t ];
  temperature_valid = elim reading [ none ↦ false | some t ↦ true ];
  level = if s.rp1_base == 0 then 0 else or_zero s.level;
  max_level = level_max;
  duty255 = if s.rp1_base == 0 then 0 else Policy.duty255 (or_zero s.level);
  override_active = is_some s.override;
}

module _ (device : Device) where
  -- `FanGetInfo` with a place for the reply.
  unfoldable pub get_info : Fan → M (Status × FanInfo)
  unfolding info_of
  get_info s = do
    reading ← avs_read_milli_c device
    pure (if s.rp1_base == 0 then not_ready else success, info_of s reading)

  -- The override in place, and commanded if the hardware is up.
  unfoldable pub stage : Fan → ℕ → M Fan
  stage s n = if s.rp1_base == 0 || is_level s.level n then pure s else command device s n

  -- `FanSetOverride`
  unfoldable pub set_override : Fan → ℕ → M (Status × Fan)
  unfolding stage
  set_override s n =
      let staged = do s' ← stage (record s { override = some n }) n; pure (success, s')
      in if ltb level_max n then pure (invalid_parameter, s) else staged

  -- `FanOnExitBootServices`
  unfoldable pub on_exit_boot_services : Fan → M Fan
  on_exit_boot_services s =
      let stopped = record s { polling = false } in
      if s.rp1_base == 0
      then pure stopped
      else if below_level s.level 1
      then command device stopped 1
      else pure stopped

-- `FanClearOverride`
unfoldable pub clear_override : Fan → Fan
clear_override s = record s { override = none }

-- The driver's variables when it is loaded and its timer is armed.
abbrev pub loaded : Fan
loaded = record {
  rp1_base = 0;
  level = none;
  override = none;
  policy = zeroed_policy;
  polling = true;
}
