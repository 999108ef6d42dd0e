-- ===== src/Rtc/Offset.antt =====
-- The offsets of OffsetTimeZoneEpoch (RpiRtcLib.c), there and back.
use rpi5_uefi_build.Common.{
  ℕ, suc, ◌*◌, ◌^◌, ◌<◌, ◌≡◌, refl, inl, inr, Bool, true, false, bit_and, ◌==◌, Bool-cases, arith,
}
use rpi5_uefi_build.Common.Int.{ℤ, pos, negsuc}
use rpi5_uefi_build.Rtc.{
  Time, TimeBase, forward, back, shift, is_unspecified, offset_time_zone_epoch,
}

module _ (base : TimeBase) (epoch : ℕ) (small : epoch < 2 ^ 32) where
  forward-back : (n : ℕ) → forward base (back base epoch n) n ≡ epoch
  forward-back n = omega arith

  back-forward : (n : ℕ) → back base (forward base epoch n) n ≡ epoch
  back-forward n = omega arith

  shift-shift : (z : ℤ) → shift base z (shift base z epoch false) true ≡ epoch
  shift-shift (pos n) = forward-back (n * base.sec_per_min)
  shift-shift (negsuc n) = back-forward (suc n * base.sec_per_min)

  -- The same zone and daylight flag take the offset back, modulo 2 ^ 32.
  pub offset-offset :
      (a b : Time)
      → b.time_zone ≡ a.time_zone
      → b.daylight ≡ a.daylight
      → offset_time_zone_epoch base b (offset_time_zone_epoch base a epoch false) true ≡ epoch
  unfolding offset_time_zone_epoch
  offset-offset a b zone light =
      rw (zone, light)
        (elim (Bool-cases (is_unspecified base a.time_zone)) [
          | inr fixed ↦ rw fixed (shift-shift a.time_zone)
          | inl free ↦
              rw free (elim (Bool-cases (bit_and a.daylight base.in_daylight == base.in_daylight)) [
                | inl summer ↦ rw summer (forward-back base.sec_per_hour)
                | inr winter ↦ rw winter refl
              ])
        ])

  shift_bound : (z : ℤ) (add : Bool) → shift base z epoch add < 2 ^ 32
  shift_bound (pos n) true = omega arith
  shift_bound (pos n) false = omega arith
  shift_bound (negsuc n) true = omega arith
  shift_bound (negsuc n) false = omega arith

  pub offset_time_zone_epoch_bound :
      (t : Time) (add : Bool) → offset_time_zone_epoch base t epoch add < 2 ^ 32
  unfolding offset_time_zone_epoch
  offset_time_zone_epoch_bound t add = elim (Bool-cases (is_unspecified base t.time_zone)) [
    | inr fixed ↦ rw fixed (shift_bound t.time_zone add)
    | inl free ↦ rw free (ground arith)
  ]
