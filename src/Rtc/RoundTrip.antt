-- ===== src/Rtc/RoundTrip.antt =====
-- A time that LibSetTime of RpiRtcLib.c stores and LibGetTime gives back, and an alarm likewise.
use rpi5_uefi_build.Common.{
  ℕ, ◌^◌, ◌<◌, ◌≡◌, ◌≢◌, refl, sym, ◌∙◌, true, false, some, arith, u32, subst,
}
use rpi5_uefi_build.Rtc.{
  success, Time, SameCalendar, TimeBase, Register, rtc_time, rtc_alarm_pending, Firmware, epoch_of,
  fill, get_time, set_time,
}
use rpi5_uefi_build.Rtc.Offset.{offset-offset, offset_time_zone_epoch_bound}

-- What the mailbox does while no second passes: a register holds what was written to it.
pub record IsClock (firmware : Firmware) : Type 0 where
  pub holds :
      (r : Register) (v : ℕ) (s : firmware.State)
      → r ≢ rtc_alarm_pending
      → v < 2 ^ 32
      → (firmware.set_rtc r v s).0 ≡ success
      → (firmware.get_rtc r (firmware.set_rtc r v s).1).0 ≡ (success, v)

module _ (base : TimeBase) (firmware : Firmware) where
  stored :
      (t buffer : Time)
      → base.is_time_valid t ≡ true
      → base.time_to_epoch t < 2 ^ 32
      → buffer.time_zone ≡ t.time_zone
      → buffer.daylight ≡ t.daylight
      → SameCalendar (fill base firmware buffer (success, epoch_of base t)).1 t
  stored t buffer valid small zone light =
      let whole : u32 (base.time_to_epoch t) ≡ base.time_to_epoch t = omega arith in
      let back =
        offset-offset base (u32 (base.time_to_epoch t)) (omega arith) t buffer zone light in
      subst (λ e. SameCalendar (base.epoch_to_time e buffer) t) (sym (back ∙ whole))
        (base.epoch_to_time-time_to_epoch t buffer valid small)

  -- With a mailbox clock that holds what was written while no second passes: a valid time whose
  -- seconds fit 32 bits, once LibSetTime has stored it, is given back by LibGetTime in a buffer
  -- whose time zone and daylight flag are those of the time.
  pub set_time-get_time :
      IsClock firmware
      → (t buffer : Time) (s : firmware.State) → base.is_time_valid t ≡ true
      → base.time_to_epoch t < 2 ^ 32
      → buffer.time_zone ≡ t.time_zone
      → buffer.daylight ≡ t.daylight
      → (set_time base firmware (some t) s).0 ≡ success
      → let r = (get_time base firmware (some buffer) (set_time base firmware (some t) s).1).0 in
        (r.0 ≡ success) × ((t' : Time) × (r.1 ≡ some t') × SameCalendar t' t)
  unfolding get_time set_time
  set_time-get_time clock t buffer s valid small zone light done =
      let bound =
        offset_time_zone_epoch_bound base (u32 (base.time_to_epoch t)) (omega arith) t false in
      let holds = clock.holds rtc_time (epoch_of base t) s (λ e. cc) bound (rw valid at done) in
      rw (valid, holds)
        (
          refl,
          (
            (fill base firmware buffer (success, epoch_of base t)).1,
            refl,
            stored t buffer valid small zone light,
          ),
        )
