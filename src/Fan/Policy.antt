-- ===== src/Fan/Policy.antt =====
-- The cooling curve and the FanPolicy variable of ActiveCoolerDxe.c, and RpiFanPolicy.h.
use rpi5_uefi_build.Common.{ℕ, zero, suc, ◌*◌, Bool, ◌||◌, ltb, leb, ◌==◌, ◌&&◌, if◌then◌else◌}

abbrev pub level_max : ℕ
level_max = 4

abbrev pub level_safe : ℕ
level_safe = 2

abbrev pub trip_min_c : ℕ
trip_min_c = 30

abbrev pub trip_max_c : ℕ
trip_max_c = 90

abbrev pub hyst_milli_c : ℕ
hyst_milli_c = 5000

abbrev pub mode_auto : ℕ
mode_auto = 0

abbrev pub mode_fixed : ℕ
mode_fixed = 1

abbrev pub mode_custom : ℕ
mode_custom = 2

-- RPI_FAN_POLICY; the fields are UINT8.
pub record FanPolicy : Type 0 where
  pub mode : ℕ
  pub fixed_level : ℕ
  pub trip1_c : ℕ
  pub trip2_c : ℕ
  pub trip3_c : ℕ
  pub trip4_c : ℕ

-- `mPolicy` before the first ReadPolicy: a static variable without an initializer.
abbrev pub zeroed_policy : FanPolicy
zeroed_policy = record {
  mode = 0;
  fixed_level = 0;
  trip1_c = 0;
  trip2_c = 0;
  trip3_c = 0;
  trip4_c = 0;
}

-- sizeof (RPI_FAN_POLICY)
abbrev pub policy_size : ℕ
policy_size = 6

-- What GetVariable returns: an error, or the size and the contents of the variable.
pub data Variable : Type 0 where
  missing : Variable
  value : ℕ → FanPolicy → Variable

-- `mFanLevels`
unfoldable pub table_trip : ℕ → ℕ
table_trip zero = 0
table_trip (suc zero) = 50000
table_trip (suc (suc zero)) = 60000
table_trip (suc (suc (suc zero))) = 67500
table_trip (suc (suc (suc (suc level)))) = 75000

unfoldable pub duty255 : ℕ → ℕ
duty255 zero = 0
duty255 (suc zero) = 75
duty255 (suc (suc zero)) = 125
duty255 (suc (suc (suc zero))) = 175
duty255 (suc (suc (suc (suc level)))) = 250

-- The policy that `ReadPolicy` starts from.
abbrev pub default_policy : FanPolicy
default_policy = record {
  mode = mode_auto;
  fixed_level = level_safe;
  trip1_c = 50;
  trip2_c = 60;
  trip3_c = 68;
  trip4_c = 75;
}

-- Custom trips out of the window, or not ascending.
unfoldable pub bad_trips : FanPolicy → Bool
bad_trips p =
    ltb p.trip1_c trip_min_c
    || ltb trip_max_c p.trip4_c
    || leb p.trip2_c p.trip1_c
    || leb p.trip3_c p.trip2_c
    || leb p.trip4_c p.trip3_c

abbrev pub is_custom : FanPolicy → Bool
is_custom p = p.mode == mode_custom

-- The policy of a variable that has been read whole.
unfoldable pub accept_policy : FanPolicy → FanPolicy
unfolding bad_trips
accept_policy var =
    if ltb mode_custom var.mode
    then default_policy
    else if is_custom var && bad_trips var
    then default_policy
    else if ltb level_max var.fixed_level
    then record var { fixed_level = level_safe }
    else var

-- `ReadPolicy`
unfoldable pub read_policy : Variable → FanPolicy
unfolding accept_policy
read_policy missing = default_policy
read_policy (value size var) = if size == policy_size then accept_policy var else default_policy

unfoldable pub custom_trip : FanPolicy → ℕ → ℕ
custom_trip p zero = p.trip4_c
custom_trip p (suc zero) = p.trip1_c
custom_trip p (suc (suc zero)) = p.trip2_c
custom_trip p (suc (suc (suc zero))) = p.trip3_c
custom_trip p (suc (suc (suc (suc level)))) = p.trip4_c

-- `TripMilliC`
unfoldable pub trip_milli_c : FanPolicy → ℕ → ℕ
unfolding table_trip custom_trip
trip_milli_c p level = if is_custom p then custom_trip p level * 1000 else table_trip level
