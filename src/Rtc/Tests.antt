-- ===== src/Rtc/Tests.antt =====
-- A clock for the first day of 1970, an hour ahead of UTC.
use rpi5_uefi_build.Common.{
  ℕ, ◌+◌, ◌*◌, ◌/◌, ◌%◌, ◌≡◌, refl, true, Bool, ◌&&◌, some, ltb, ◌==◌, arith,
}
use rpi5_uefi_build.Common.Int.{pos}
use rpi5_uefi_build.Rtc.{success, Time, SameCalendar, TimeBase, Firmware, get_time, set_time}
use rpi5_uefi_build.Rtc.RoundTrip.{IsClock, set_time-get_time}

abbrev first_day : Time → Bool
first_day t =
    t.year == 1970
    && (t.month == 1 && (t.day == 1 && (ltb t.hour 24 && (ltb t.minute 60 && ltb t.second 60))))

abbrev seconds : Time → ℕ
seconds t = (t.hour * 60 + t.minute) * 60 + t.second

abbrev time_at : ℕ → Time → Time
time_at e buffer = record buffer {
  year = 1970;
  month = 1;
  day = 1;
  hour = e / 3600;
  minute = e / 60 % 60;
  second = e % 60;
  nanosecond = 0;
}

time_at-seconds :
    (t buffer : Time) → first_day t ≡ true → SameCalendar (time_at (seconds t) buffer) t
time_at-seconds t buffer h = record {
  same_year = ground arith;
  same_month = ground arith;
  same_day = ground arith;
  same_hour = ground arith;
  same_minute = ground arith;
  same_second = ground arith;
}

abbrev day_base : TimeBase
day_base = record {
  unspecified_time_zone = pos 2047;
  in_daylight = 2;
  sec_per_min = 60;
  sec_per_hour = 3600;
  is_time_valid = first_day;
  time_to_epoch = seconds;
  epoch_to_time = time_at;
  epoch_to_time-time_to_epoch = λ t buffer h small. time_at-seconds t buffer h;
}

-- One register, which stands still.
abbrev still : Firmware
still = record { State = ℕ; get_rtc = λ r s. ((success, s), s); set_rtc = λ r v s. (success, v) }

still-IsClock : IsClock still
still-IsClock = record { holds = λ r v s ne small done. refl }

abbrev half_past_nine : Time
half_past_nine = record {
  year = 1970;
  month = 1;
  day = 1;
  hour = 9;
  minute = 30;
  second = 5;
  nanosecond = 0;
  time_zone = pos 60;
  daylight = 0;
}

-- A buffer of the same zone.
abbrev stale : Time
stale = record half_past_nine { year = 1; hour = 2 }

set_time-get_time_example :
    let r =
      (get_time day_base still
        (some stale)
        (set_time day_base still (some half_past_nine) 0).1).0 in
    (r.0 ≡ success) × ((t' : Time) × (r.1 ≡ some t') × SameCalendar t' half_past_nine)
unfolding set_time
set_time-get_time_example =
    set_time-get_time day_base still still-IsClock half_past_nine stale 0 refl (omega arith) refl
      refl refl
