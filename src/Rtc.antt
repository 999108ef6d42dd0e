-- ===== src/Rtc.antt =====
-- Platform/RaspberryPi/Library/RpiRtcLib/RpiRtcLib.c (under meta-rpi5-uefi/recipes-bsp/edk2-platforms/
-- files/edk2-platforms): the clock and the alarm behind the firmware's mailbox. EDK2's TimeBaseLib and
-- the firmware protocol are parameters.
pub mod Offset
pub mod RoundTrip
pub mod Tests
use rpi5_uefi_build.Common.{
  ℕ, suc, ◌+◌, ◌-◌, ◌*◌, ◌^◌, ◌<◌, ◌≡◌, ◌≢◌, Bool, true, false, not, ◌&&◌, ◌||◌, Option, none, some,
  bit_and, ◌==◌, if◌then◌else◌, u8, u32,
}
use rpi5_uefi_build.Common.Int.{ℤ, pos, negsuc, leb_ℤ}
use rpi5_uefi_build.Common.State.{Act, pure, ◌>>=◌, ◌>>◌}

-- EFI_STATUS, with the firmware protocol's errors.
pub data Status : Type 0 where
  success invalid_parameter unsupported : Status
  failed : ℕ → Status

abbrev pub is_error : Status → Bool
is_error success = false
is_error _ = true

-- EFI_TIME
pub record Time : Type 0 where
  pub year : ℕ
  pub month : ℕ
  pub day : ℕ
  pub hour : ℕ
  pub minute : ℕ
  pub second : ℕ
  pub nanosecond : ℕ
  pub time_zone : ℤ
  pub daylight : ℕ

pub record SameCalendar (a b : Time) : Type 0 where
  pub same_year : a.year ≡ b.year
  pub same_month : a.month ≡ b.month
  pub same_day : a.day ≡ b.day
  pub same_hour : a.hour ≡ b.hour
  pub same_minute : a.minute ≡ b.minute
  pub same_second : a.second ≡ b.second

-- EDK2's TimeBaseLib and the constants of EFI_TIME.
pub record TimeBase : Type 0 where
  pub unspecified_time_zone : ℤ
  pub in_daylight : ℕ
  pub sec_per_min : ℕ
  pub sec_per_hour : ℕ
  pub is_time_valid : Time → Bool
  pub time_to_epoch : Time → ℕ
  -- The fields that EpochToEfiTime fills in a buffer.
  pub epoch_to_time : ℕ → Time → Time
  pub epoch_to_time-time_to_epoch :
      (t buffer : Time)
      → is_time_valid t ≡ true
      → time_to_epoch t < 2 ^ 32
      → SameCalendar (epoch_to_time (time_to_epoch t) buffer) t

-- The registers of the mailbox's clock.
pub data Register : Type 0 where
  rtc_time rtc_alarm rtc_alarm_pending rtc_alarm_enable : Register

-- RASPBERRY_PI_FIRMWARE_PROTOCOL, over an unknown state.
pub record Firmware : Type 1 where
  pub State : Type 0
  pub get_rtc : Register → Act State (Status × ℕ)
  pub set_rtc : Register → ℕ → Act State Status

module _ (base : TimeBase) where
  open base use {
    unspecified_time_zone, in_daylight, sec_per_min, sec_per_hour, is_time_valid, time_to_epoch,
  }

  -- `*EpochSeconds += n` and `-= n` on UINT32.
  abbrev pub forward : ℕ → ℕ → ℕ
  forward epoch n = u32 (epoch + n)

  abbrev pub back : ℕ → ℕ → ℕ
  back epoch n = u32 (epoch + 2 ^ 32 - u32 n)

  -- Adding, or taking away, minutes that may be negative.
  abbrev pub shift : ℤ → ℕ → Bool → ℕ
  shift (pos n) epoch true = forward epoch (n * sec_per_min)
  shift (pos n) epoch false = back epoch (n * sec_per_min)
  shift (negsuc n) epoch true = back epoch (suc n * sec_per_min)
  shift (negsuc n) epoch false = forward epoch (suc n * sec_per_min)

  abbrev pub is_unspecified : ℤ → Bool
  is_unspecified z = leb_ℤ z unspecified_time_zone && leb_ℤ unspecified_time_zone z

  -- `OffsetTimeZoneEpoch`
  unfoldable pub offset_time_zone_epoch : Time → ℕ → Bool → ℕ
  offset_time_zone_epoch time epoch add =
      if not (is_unspecified time.time_zone)
      then shift time.time_zone epoch add
      else if bit_and time.daylight in_daylight == in_daylight
      then if add then forward epoch sec_per_hour else back epoch sec_per_hour
      else epoch

  -- `IsTimeValid`, of a pointer that may be NULL.
  abbrev pub is_given : Option Time → Bool
  is_given none = false
  is_given (some time) = is_time_valid time

  -- (UINT32)EfiTimeToEpoch (Time), offset.
  abbrev pub epoch_of : Time → ℕ
  epoch_of time = offset_time_zone_epoch time (u32 (time_to_epoch time)) false

  module _ (firmware : Firmware) where
    open firmware use {State, get_rtc, set_rtc}

    abbrev pub fill : Time → Status × ℕ → Status × Time
    fill buffer (status, epoch) =
        if is_error status
        then (status, buffer)
        else (success, base.epoch_to_time (offset_time_zone_epoch buffer epoch true) buffer)

    -- `LibGetTime`, which reads the time zone from the caller's buffer.
    unfoldable pub get_time : Option Time → Act State (Status × Option Time)
    get_time none = pure (invalid_parameter, none)
    get_time (some buffer) = do
      r ← get_rtc rtc_time
      pure ((fill buffer r).0, some (fill buffer r).1)

    -- `LibSetTime`
    unfoldable pub set_time : Option Time → Act State Status
    set_time none = pure unsupported
    set_time (some time) =
        if not (is_time_valid time) then pure unsupported else set_rtc rtc_time (epoch_of time)

    abbrev pub Alarm : Type 0
    Alarm = Status × Option (ℕ × ℕ × Time)

    -- The alarm's time, behind the acknowledgement.
    abbrev pub alarm_time : ℕ → ℕ → Time → Act State Alarm
    alarm_time enabled pending buffer = do
      r ← get_rtc rtc_alarm
      pure ((fill buffer r).0, some (enabled, pending, (fill buffer r).1))

    abbrev pub acknowledged : ℕ → ℕ → Time → Status → Act State Alarm
    acknowledged enabled pending buffer status =
        if is_error status
        then pure (status, some (enabled, pending, buffer))
        else alarm_time enabled pending buffer

    abbrev pub with_pending : ℕ → Time → Status × ℕ → Act State Alarm
    with_pending enabled buffer (status, pending) =
        if is_error status
        then pure (status, none)
        else if not (u8 pending == 0)
        then (set_rtc rtc_alarm_pending 1 >>= acknowledged (u8 enabled) (u8 pending) buffer)
        else alarm_time (u8 enabled) (u8 pending) buffer

    abbrev pub with_enabled : Time → Status × ℕ → Act State Alarm
    with_enabled buffer (status, enabled) =
        if is_error status
        then pure (status, none)
        else (get_rtc rtc_alarm_pending >>= with_pending enabled buffer)

    -- `LibGetWakeupTime`, with *Enabled, *Pending and *Time once they are written; BOOLEAN has 8 bits.
    unfoldable pub get_wakeup_time : Bool → Bool → Option Time → Act State Alarm
    get_wakeup_time enabled_given pending_given none = pure (invalid_parameter, none)
    get_wakeup_time enabled_given pending_given (some buffer) =
        if not enabled_given || not pending_given
        then pure (invalid_parameter, none)
        else (get_rtc rtc_alarm_enable >>= with_enabled buffer)

    abbrev pub enable_alarm : ℕ → Status → Act State Status
    enable_alarm enabled status =
        if is_error status then pure status else set_rtc rtc_alarm_enable enabled

    -- `LibSetWakeupTime`, with BOOLEAN Enabled.
    unfoldable pub set_wakeup_time : ℕ → Option Time → Act State Status
    set_wakeup_time enabled none =
        if not (enabled == 0) then pure invalid_parameter else set_rtc rtc_alarm_enable enabled
    set_wakeup_time enabled (some time) =
        if not (enabled == 0)
        then if not (is_time_valid time)
          then pure invalid_parameter
          else (set_rtc rtc_alarm (epoch_of time) >>= enable_alarm enabled)
        else set_rtc rtc_alarm_enable enabled

    abbrev pub set_build_time : ℕ → Status × Option Time → Act State Status
    set_build_time build_epoch (status, none) = pure status
    set_build_time build_epoch (status, some time) =
        if is_error status
        then pure status
        else if not (is_time_valid time)
        then set_time (some (base.epoch_to_time build_epoch time))
        else pure success

    -- `LibRtcInitialize`: what LocateProtocol and CreateEventEx return, what is on the stack where Time
    -- is, and BUILD_EPOCH.
    unfoldable pub rtc_initialize : Status → Status → Time → ℕ → Act State Status
    rtc_initialize located created stack build_epoch =
        if is_error located
        then pure located
        else if is_error created
        then pure created
        else (get_time (some stack) >>= set_build_time build_epoch)
