-- ===== src/Fan/Tick.antt =====
-- `FanPollTick`, the protocol and the ExitBootServices handler of ActiveCoolerDxe.c: what they
-- command, and the invariant that they keep.
use rpi5_uefi_build.Common.{
  ap, sym, subst, ◌∙◌, ◌<◌, ◌+◌, ◌*◌, ◌/◌, ◌^◌, List, [], ◌∷◌, u64, bit_or, ℕ, ◌≤◌, ◌≡◌, ◌≢◌, refl,
  inl, inr, arith, true, false, Option, none, some, ◌==◌, if◌then◌else◌, Bool-cases, u32,
}
use rpi5_uefi_build.Common.Int.{ℤ}
use rpi5_uefi_build.Common.Mmio.{Device, History, rd, wr}
use rpi5_uefi_build.Fan.{
  Fan, World, next_level, command, command_new, regulate, regulate_at, decide_by, acquire,
  poll_tick, is_level, below_level,
}
use rpi5_uefi_build.Fan.Policy.{FanPolicy, read_policy, level_max, level_safe, mode_fixed, duty255}
use rpi5_uefi_build.Fan.Hardware.{
  set_level, pwm_latch, duty_ticks, avs_read_milli_c, avs_temperature, avs_ro_temp_status,
}
use rpi5_uefi_build.Fan.Loop.{IsSane}
use rpi5_uefi_build.Fan.Settle.{IsNext, next_level-IsNext}

abbrev pub KnownLevel : Option ℕ → Type 0
KnownLevel none = Unit
KnownLevel (some l) = l ≤ level_max

-- What holds of the driver's variables between two events.
pub record IsSafe (s : Fan) : Type 0 where
  pub level_known : KnownLevel s.level
  pub override_known : KnownLevel s.override
  pub policy_sane : IsSane s.policy

pub is_level-eq : (o : Option ℕ) (l : ℕ) → is_level o l ≡ true → o ≡ some l
is_level-eq none l e = absurd (cc)
is_level-eq (some m) l e = ground arith

-- The level that a reading leads to: the safe one while the sensor is invalid and the fan is below
-- it, else the loop's.
abbrev pub regulated : FanPolicy → Option ℤ → Option ℕ → Option ℕ
regulated p none level = if below_level level level_safe then some level_safe else level
regulated p (some t) level = some (next_level p t level)

-- The level after a tick: the override, the fixed level, or the loop's.
abbrev pub decided : FanPolicy → Option ℤ → Option ℕ → Option ℕ → Option ℕ
decided p reading (some pinned) level = some pinned
decided p reading none level =
    if p.mode == mode_fixed then some p.fixed_level else regulated p reading level

-- What the sensor answers after the accesses `h`.
abbrev pub reading_after : Device → History → Option ℤ
reading_after device h = avs_temperature (u32 (device.reply h avs_ro_temp_status))

module _ (device : Device) where
  pub command-state :
      (s : Fan) (l : ℕ) (h : History) → (command device s l h).0 ≡ record s { level = some l }
  unfolding command
  command-state s l h = refl

  command_new-state :
      (s : Fan) (l : ℕ) (h : History) → (command_new device s l h).0 ≡ record s { level = some l }
  unfolding command_new
  command_new-state s l h = elim (Bool-cases (is_level s.level l)) [
    | inl e ↦ rw e (λ i. record s { level = is_level-eq s.level l e i })
    | inr e ↦ rw e (command-state s l h)
  ]

  regulate_at-state :
      (s : Fan) (reading : Option ℤ) (h : History)
      → (regulate_at device s reading h).0 ≡ record s { level = regulated s.policy reading s.level }
  unfolding regulate_at
  regulate_at-state s none h = elim (Bool-cases (below_level s.level level_safe)) [
    | inl low ↦ rw low (command-state s level_safe h)
    | inr high ↦ rw high
  ]
  regulate_at-state s (some t) h = command_new-state s (next_level s.policy t s.level) h

  -- What a tick commands once the hardware is up, whatever branch it takes.
  pub decide_by-state :
      (s : Fan) (override : Option ℕ) (h : History)
      → (decide_by device s override h).0
        ≡ record s { level = decided s.policy (reading_after device h) override s.level }
  unfolding decide_by regulate avs_read_milli_c
  decide_by-state s (some l) h = command_new-state s l h
  decide_by-state s none h = elim (Bool-cases (s.policy.mode == mode_fixed)) [
    | inl fixed ↦ rw fixed (command_new-state s s.policy.fixed_level h)
    | inr free ↦ rw free (regulate_at-state s (reading_after device h) _)
  ]

is_level-ne : (o : Option ℕ) (l : ℕ) → is_level o l ≡ false → o ≢ some l
is_level-ne none l h e = absurd (cc)
is_level-ne (some m) l h e = let same : m ≡ l = cc in ground arith

below_level-ne : (o : Option ℕ) → below_level o level_safe ≡ true → o ≢ some level_safe
below_level-ne none h e = absurd (cc)
below_level-ne (some m) h e = let same : m ≡ 2 = cc in ground arith

-- The writes of a history, newest first.
abbrev pub stores : History → List (ℕ × ℕ)
stores [] = []
stores (rd a v ∷ h) = stores h
stores (wr a v ∷ h) = (a, v) ∷ stores h

-- The level of the closed loop: the next one at the temperature read; with no valid reading the safe
-- level 2, unless the fan is already there or above.
pub data Closed (p : FanPolicy) (old : Option ℕ) : Option ℤ → Option ℕ → Type 0 where
  loop : (t : ℤ) (n : ℕ) → IsNext p t old n → Closed p old (some t) (some n)
  raised : ((l : ℕ) → old ≡ some l → l < 2) → Closed p old none (some 2)
  held : (l : ℕ) → old ≡ some l → 2 ≤ l → Closed p old none old

-- The precedence of a tick: the override, the fixed level of mode 1, the closed loop.
pub data IsDecided (p : FanPolicy) (reading : Option ℤ) (old : Option ℕ)
    : Option ℕ → Option ℕ → Type 0 where
  pinned : (l : ℕ) → IsDecided p reading old (some l) (some l)
  fixed_mode : p.mode ≡ 1 → IsDecided p reading old none (some p.fixed_level)
  closed :
      (new : Option ℕ) → p.mode ≢ 1 → Closed p old reading new → IsDecided p reading old none new

-- What reaches the hardware: nothing where the level stays, else the duty of the new level, in ticks
-- of the PWM period, and the latch of the PWM block.
pub data Reaches (base : ℕ) (old new : Option ℕ) (before after : List (ℕ × ℕ)) : Type 0 where
  stays : new ≡ old → after ≡ before → Reaches base old new before after
  commanded :
      (l global : ℕ)
      → new ≢ old
      → new ≡ some l
      → after
        ≡ (u64 (base + 0x9_c000), bit_or global (2 ^ 31))
          ∷ (u64 (base + 0x9_c000 + 0x50), u32 (duty255 l * 2078 + 127) / 255)
          ∷ before
      → Reaches base old new before after

abbrev Hardware : Fan → History → Fan × History → Type 0
Hardware s h r = Reaches s.rp1_base s.level r.0.level (stores h) (stores r.1)

module _ (device : Device) where
  command-Reaches :
      (s : Fan) (l : ℕ) (h : History) → s.level ≢ some l → Hardware s h (command device s l h)
  unfolding command set_level pwm_latch duty_ticks
  command-Reaches s l h other =
      commanded l (u32 (device.reply _ (u64 (s.rp1_base + 0x9_c000)))) (λ e. other (sym e)) refl
        refl

  command_new-Reaches : (s : Fan) (l : ℕ) (h : History) → Hardware s h (command_new device s l h)
  unfolding command_new
  command_new-Reaches s l h = elim (Bool-cases (is_level s.level l)) [
    | inl e ↦ rw e (stays refl refl)
    | inr e ↦ rw e (command-Reaches s l h (is_level-ne s.level l e))
  ]

  regulate_at-Reaches :
      (s : Fan) (reading : Option ℤ) (h : History) → Hardware s h (regulate_at device s reading h)
  unfolding regulate_at
  regulate_at-Reaches s none h = elim (Bool-cases (below_level s.level level_safe)) [
    | inl low ↦ rw low (command-Reaches s level_safe h (below_level-ne s.level low))
    | inr high ↦ rw high (stays refl refl)
  ]
  regulate_at-Reaches s (some t) h = command_new-Reaches s (next_level s.policy t s.level) h

  decide_by-Reaches :
      (s : Fan) (override : Option ℕ) (h : History) → Hardware s h (decide_by device s override h)
  unfolding decide_by regulate avs_read_milli_c
  decide_by-Reaches s (some l) h = command_new-Reaches s l h
  decide_by-Reaches s none h = elim (Bool-cases (s.policy.mode == mode_fixed)) [
    | inl fixed ↦ rw fixed (command_new-Reaches s s.policy.fixed_level h)
    | inr free ↦ rw free (regulate_at-Reaches s (reading_after device h) _)
  ]

regulated-Closed :
    (p : FanPolicy) (reading : Option ℤ) (old : Option ℕ)
    → ((l : ℕ) → old ≡ some l → l ≤ level_max)
    → Closed p old reading (regulated p reading old)
regulated-Closed p none none known = raised (λ l e. absurd (cc))
regulated-Closed p none (some l) known = elim (Bool-cases (below_level (some l) level_safe)) [
  | inl low ↦ rw low (raised (λ m e. let same : l ≡ m = cc in ground arith))
  | inr high ↦ rw high (held l refl (ground arith))
]
regulated-Closed p (some t) old known =
    loop t (next_level p t old) (next_level-IsNext p t old known)

decided-IsDecided :
    (p : FanPolicy) (reading : Option ℤ) (override old : Option ℕ)
    → ((l : ℕ) → old ≡ some l → l ≤ level_max)
    → IsDecided p reading old override (decided p reading override old)
decided-IsDecided p reading (some l) old known = pinned l
decided-IsDecided p reading none old known = elim (Bool-cases (p.mode == mode_fixed)) [
  | inl fixed' ↦ rw fixed' (fixed_mode (ground arith))
  | inr free ↦
      rw free (closed _ (λ e. absurd (ground arith)) (regulated-Closed p reading old known))
]

pub poll_tick-state :
    (w : World) (s : Fan) (h : History)
    → s.rp1_base ≢ 0
    → (poll_tick w s h).0 ≡ record s {
      level = decided (read_policy w.variable) (reading_after w.device h) s.override s.level;
      policy = read_policy w.variable;
    }
unfolding poll_tick acquire
poll_tick-state w s h up =
    let t : (s.rp1_base == 0) ≡ false = ground arith in
    rw t (decide_by-state w.device (record s { policy = read_policy w.variable }) s.override h)

-- With the RP1 up and no level commanded so far but one of the table, a tick re-reads the policy
-- and changes nothing else of the driver but the level. The new level is that of the precedence
-- override, fixed level, closed loop; an invalid reading holds the fan at the safe level or
-- above. If the level is a new one, the tick writes its duty to the fan's channel and latches it;
-- else it writes nothing.
pub poll_tick-IsDecided :
    (w : World) (s : Fan) (h : History)
    → s.rp1_base ≢ 0
    → ((l : ℕ) → s.level ≡ some l → l ≤ level_max)
    → let (s', h') = poll_tick w s h in
      (s' ≡ record s { level = s'.level; policy = read_policy w.variable })
      × IsDecided (read_policy w.variable) (reading_after w.device h) s.level s.override s'.level
      × Reaches s.rp1_base s.level s'.level (stores h) (stores h')
unfolding poll_tick acquire
poll_tick-IsDecided w s h up known =
    let t : (s.rp1_base == 0) ≡ false = ground arith in
    let fresh : Fan = record s { policy = read_policy w.variable } in
    let state = decide_by-state w.device fresh s.override h in
    let level : (decide_by w.device fresh s.override h).0.level
        ≡ decided (read_policy w.variable) (reading_after w.device h) s.override s.level =
      ap (λ (x : Fan). x.level) state in
    rw t (
      state ∙ ap (λ l. record s { level = l; policy = read_policy w.variable }) (sym level),
      subst (IsDecided (read_policy w.variable) (reading_after w.device h) s.level s.override)
          (sym level)
          (decided-IsDecided (read_policy w.variable) (reading_after w.device h) s.override s.level
            known),
      decide_by-Reaches w.device fresh s.override h,
    )
