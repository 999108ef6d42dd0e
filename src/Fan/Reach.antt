-- ===== src/Fan/Reach.antt =====
-- The driver of ActiveCoolerDxe.c as a transition system: timer ticks, protocol calls and
-- ExitBootServices in any order.
use rpi5_uefi_build.Common.{
  ℕ, ◌≤◌, ◌≡◌, inl, inr, arith, true, false, Option, none, some, ltb, ◌==◌, Bool-cases, ◌||◌,
  ltb-false,
}
use rpi5_uefi_build.Common.Int.{ℤ}
use rpi5_uefi_build.Common.Mmio.{Device, History}
use rpi5_uefi_build.Fan.{
  Fan, World, decide_by, acquire, bring_up, tick_ready, poll_tick, is_level, below_level,
}
use rpi5_uefi_build.Fan.Policy.{FanPolicy, read_policy, level_max, level_safe, mode_fixed}
use rpi5_uefi_build.Fan.Hardware.{hw_init}
use rpi5_uefi_build.Fan.Control.{set_override, clear_override, on_exit_boot_services, stage, loaded}
use rpi5_uefi_build.Fan.Loop.{IsSane, read_policy-IsSane}
use rpi5_uefi_build.Fan.Settle.{next_level-IsNext}
use rpi5_uefi_build.Fan.Tick.{
  KnownLevel, IsSafe, decided, regulated, reading_after, command-state, decide_by-state,
}

regulated-Known :
    (p : FanPolicy) (reading : Option ℤ) (level : Option ℕ)
    → KnownLevel level
    → KnownLevel (regulated p reading level)
regulated-Known p none none k = omega arith
regulated-Known p none (some l) k = elim (Bool-cases (ltb l level_safe)) [
  | inl low ↦ rw low (omega arith)
  | inr high ↦ rw high k
]
regulated-Known p (some t) level k = (next_level-IsNext p t level (known level k)).capped
  where
    known : (o : Option ℕ) → KnownLevel o → (l : ℕ) → o ≡ some l → l ≤ level_max
    known none k l e = absurd (cc)
    known (some m) k l e = ground arith

decided-Known :
    (p : FanPolicy) (reading : Option ℤ) (override level : Option ℕ)
    → IsSane p
    → KnownLevel override
    → KnownLevel level
    → KnownLevel (decided p reading override level)
decided-Known p reading (some l) level sane o k = o
decided-Known p reading none level sane o k = elim (Bool-cases (p.mode == mode_fixed)) [
  | inl fixed ↦ rw fixed sane.level_known
  | inr free ↦ rw free (regulated-Known p reading level k)
]

module _ (w : World) where
  decide-IsSafe : (s : Fan) (h : History) → IsSafe s → IsSafe (decide_by w.device s s.override h).0
  decide-IsSafe s h safe = rw (decide_by-state w.device s s.override h) (record {
    level_known =
        decided-Known s.policy (reading_after w.device h) s.override s.level safe.policy_sane
          safe.override_known safe.level_known;
    override_known = safe.override_known;
    policy_sane = safe.policy_sane;
  })

  refreshed : (s : Fan) → IsSafe s → IsSafe (record s { policy = read_policy w.variable })
  refreshed s safe = record {
    level_known = safe.level_known;
    override_known = safe.override_known;
    policy_sane = read_policy-IsSane w.variable;
  }

  tick_ready-IsSafe :
      (s : Fan) (base : ℕ) (h : History)
      → IsSafe s
      → IsSafe (tick_ready w s (some (record s { rp1_base = base })) h).0
  unfolding tick_ready
  tick_ready-IsSafe s base h safe =
      decide-IsSafe (record s { rp1_base = base; policy = read_policy w.variable }) h
        (record {
          level_known = safe.level_known;
          override_known = safe.override_known;
          policy_sane = read_policy-IsSane w.variable;
        })

  first_sight-IsSafe :
      (s : Fan) (rp1 : Option ℕ) (h : History)
      → IsSafe s
      → let (ready, h') = bring_up w.device s rp1 h in IsSafe (tick_ready w s ready h').0
  unfolding bring_up tick_ready
  first_sight-IsSafe s none h safe = safe
  first_sight-IsSafe s (some base) h safe =
      unfold bring_up in tick_ready-IsSafe s base (hw_init w.device base h).1 safe

  -- A tick keeps the invariant on every branch, the first sight of the RP1 included.
  pub poll_tick-IsSafe : (s : Fan) (h : History) → IsSafe s → IsSafe (poll_tick w s h).0
  unfolding poll_tick acquire
  poll_tick-IsSafe s h safe = elim (Bool-cases (s.rp1_base == 0)) [
    | inr up ↦ rw up (tick_ready-IsSafe s s.rp1_base h safe)
    | inl down ↦ rw down (first_sight-IsSafe s w.rp1 h safe)
  ]

stage-IsSafe :
    (device : Device) (s : Fan) (n : ℕ) (h : History)
    → IsSafe s
    → n ≤ level_max
    → IsSafe (stage device s n h).0
unfolding stage
stage-IsSafe device s n h safe small = elim (Bool-cases (s.rp1_base == 0 || is_level s.level n)) [
  | inl skip ↦ rw skip safe
  | inr go ↦
      rw (go, command-state device s n h)
        (record {
          level_known = small;
          override_known = safe.override_known;
          policy_sane = safe.policy_sane;
        })
]

-- `FanSetOverride` rejects a level above the highest and then changes nothing; else it stages the
-- level. Either way the invariant holds.
pub set_override-IsSafe :
    (device : Device) (s : Fan) (n : ℕ) (h : History)
    → IsSafe s
    → IsSafe (set_override device s n h).0.1
unfolding set_override
set_override-IsSafe device s n h safe = elim (Bool-cases (ltb level_max n)) [
  | inl big ↦ rw big safe
  | inr small ↦ rw small (
      stage-IsSafe device (record s { override = some n }) n h
        (record {
          level_known = safe.level_known;
          override_known = ltb-false level_max n small;
          policy_sane = safe.policy_sane;
        })
        (ltb-false level_max n small))
]

pub on_exit_boot_services-IsSafe :
    (device : Device) (s : Fan) (h : History)
    → IsSafe s
    → IsSafe (on_exit_boot_services device s h).0
unfolding on_exit_boot_services
on_exit_boot_services-IsSafe device s h safe =
    let stopped : IsSafe (record s { polling = false }) = record {
      level_known = safe.level_known;
      override_known = safe.override_known;
      policy_sane = safe.policy_sane;
    } in
    elim (Bool-cases (s.rp1_base == 0)) [
      | inl down ↦ rw down stopped
      | inr up ↦ elim (Bool-cases (below_level s.level 1)) [
        | inr high ↦ rw (up, high) stopped
        | inl low ↦
            rw (up, low, command-state device (record s { polling = false }) 1 h)
              (record {
                level_known = omega arith;
                override_known = safe.override_known;
                policy_sane = safe.policy_sane;
              })
      ]
    ]

-- One event of the running driver. The timer fires only while it is armed; each event finds the
-- registers, the RP1 protocol and the policy variable as the environment has made them.
pub data Step (s : Fan) (t : Fan) : Type 0 where
  tick : (w : World) (h : History) → s.polling ≡ true → t ≡ (poll_tick w s h).0 → Step s t
  pin : (d : Device) (n : ℕ) (h : History) → t ≡ (set_override d s n h).0.1 → Step s t
  unpin : t ≡ clear_override s → Step s t
  exit : (d : Device) (h : History) → t ≡ (on_exit_boot_services d s h).0 → Step s t

pub data Reach (s : Fan) : Fan → Type 0 where
  here : Reach s s
  next : {t u : Fan} → Reach s t → Step t u → Reach s u

Step-IsSafe : (s t : Fan) → Step s t → IsSafe s → IsSafe t
unfolding clear_override
Step-IsSafe s t (tick w h armed e) safe = rw e (poll_tick-IsSafe w s h safe)
Step-IsSafe s t (pin d n h e) safe = rw e (set_override-IsSafe d s n h safe)
Step-IsSafe s t (unpin e) safe =
    rw e (record {
      level_known = safe.level_known;
      override_known = tt;
      policy_sane = safe.policy_sane;
    })
Step-IsSafe s t (exit d h e) safe = rw e (on_exit_boot_services-IsSafe d s h safe)

loaded-IsSafe : IsSafe loaded
loaded-IsSafe = ground arith

Reach-IsSafe : {s t : Fan} → IsSafe s → Reach s t → IsSafe t
Reach-IsSafe safe here = safe
Reach-IsSafe safe (next {t = t} {u = u} r step) = Step-IsSafe t u step (Reach-IsSafe safe r)

-- From loading on, with the policy zeroed until the first tick that has the RP1, after any
-- sequence of ticks, protocol calls and ExitBootServices, the commanded level and the override
-- are levels of the cooling table and the policy is one that the loop can run on.
pub reachable-IsSafe : (s : Fan) → Reach loaded s → IsSafe s
reachable-IsSafe s r = Reach-IsSafe loaded-IsSafe r
