-- ===== src/Fan/Loop.antt =====
-- The cooling policy and the closed loop: what level a temperature leads to, and that the loop
-- settles.
use rpi5_uefi_build.Common.{ℕ, zero, suc, ◌≤◌, ◌<◌, ◌≡◌, ◌↔◌, inl, inr, arith, true, Bool-cases}
use native.Mathlib.Decide.{ℕ_discrete, dec_le}
use rpi5_uefi_build.Common.Int.{ℤ, pos, leb_ℤ, ◌≤ℤ◌}
use rpi5_uefi_build.Fan.{target_level}
use rpi5_uefi_build.Fan.Policy.{
  FanPolicy, Variable, read_policy, is_custom, trip_milli_c, level_max, mode_custom, trip_min_c,
  trip_max_c, hyst_milli_c, missing, value,
}

-- A policy that the loop can run on: every index in range, custom trips ascending in the window.
pub record IsSane (p : FanPolicy) : Type 0 where
  pub mode_known : p.mode ≤ mode_custom
  pub level_known : p.fixed_level ≤ level_max
  pub lowest : is_custom p ≡ true → trip_min_c ≤ p.trip1_c
  pub rise12 : is_custom p ≡ true → p.trip1_c < p.trip2_c
  pub rise23 : is_custom p ≡ true → p.trip2_c < p.trip3_c
  pub rise34 : is_custom p ≡ true → p.trip3_c < p.trip4_c
  pub highest : is_custom p ≡ true → p.trip4_c ≤ trip_max_c

-- Whatever the FanPolicy variable holds, the policy of ReadPolicy has every index in range and,
-- if it is custom, ascending trips in the window.
pub read_policy-IsSane : (v : Variable) → IsSane (read_policy v)
unfolding read_policy
read_policy-IsSane missing = ground arith
read_policy-IsSane (value size var) = ground arith

module _ (p : FanPolicy) (sane : IsSane p) where
  -- The trips ascend, and the lowest is well above the hysteresis.
  trips :
      (hyst_milli_c < trip_milli_c p 1)
      × (trip_milli_c p 1 < trip_milli_c p 2)
      × (trip_milli_c p 2 < trip_milli_c p 3)
      × (trip_milli_c p 3 < trip_milli_c p 4)
  unfolding trip_milli_c
  trips = ground arith

  -- Trips ascend over the levels.
  trip_mono : (j k : ℕ) → 1 ≤ j → j ≤ k → k ≤ level_max → trip_milli_c p j ≤ trip_milli_c p k
  trip_mono zero k lo le hi = absurd (omega arith)
  trip_mono (suc zero) zero lo le hi = absurd (omega arith)
  trip_mono (suc zero) (suc zero) lo le hi = omega arith
  trip_mono (suc zero) (suc (suc zero)) lo le hi = omega (arith, trips)
  trip_mono (suc zero) (suc (suc (suc zero))) lo le hi = omega (arith, trips)
  trip_mono (suc zero) (suc (suc (suc (suc zero)))) lo le hi = omega (arith, trips)
  trip_mono (suc (suc zero)) (suc (suc zero)) lo le hi = omega arith
  trip_mono (suc (suc zero)) (suc (suc (suc zero))) lo le hi = omega (arith, trips)
  trip_mono (suc (suc zero)) (suc (suc (suc (suc zero)))) lo le hi = omega (arith, trips)
  trip_mono (suc (suc (suc zero))) (suc (suc (suc zero))) lo le hi = omega arith
  trip_mono (suc (suc (suc zero))) (suc (suc (suc (suc zero)))) lo le hi = omega (arith, trips)
  trip_mono (suc (suc (suc (suc zero)))) (suc (suc (suc (suc zero)))) lo le hi = omega arith
  trip_mono j k lo le hi = absurd (omega arith)

-- `level` is the highest of the levels up to `top` whose trip the temperature has reached.
pub record IsTarget (p : FanPolicy) (t : ℤ) (top level : ℕ) : Type 0 where
  pub capped : level ≤ top
  pub reached : 0 < level → pos (trip_milli_c p level) ≤ℤ t
  pub above : (k : ℕ) → level < k → k ≤ top → ¬ (pos (trip_milli_c p k) ≤ℤ t)

pub target_level-IsTarget :
    (p : FanPolicy) (t : ℤ) (top : ℕ) → IsTarget p t top (target_level p t top)
unfolding target_level
target_level-IsTarget p t zero = record {
  capped = omega arith;
  reached = λ h. absurd (omega arith);
  above = λ k lo hi. absurd (omega arith);
}
target_level-IsTarget p t (suc top) =
    let lower = target_level-IsTarget p t top in
    elim (Bool-cases (leb_ℤ (pos (trip_milli_c p (suc top))) t)) [
      | inl e ↦ rw e (record {
        capped = omega arith;
        reached = λ h. ground arith;
        above = λ k lo hi. absurd (omega arith);
      })
      | inr e ↦ rw e (record {
        capped = omega (arith, lower.capped);
        reached = lower.reached;
        above = λ k lo hi. elim (ℕ_discrete k (suc top)) [
          | yes same ↦ rw same (ground arith)
          | no other ↦ lower.above k lo (omega arith)
        ];
      })
    ]

-- Under a sane policy a level of the table is at or below the target exactly when its trip has
-- been reached.
pub target_level_iff :
    (p : FanPolicy) (t : ℤ) (k : ℕ)
    → IsSane p
    → 1 ≤ k
    → k ≤ level_max
    → (k ≤ target_level p t level_max) ↔ (pos (trip_milli_c p k) ≤ℤ t)
target_level_iff p t k sane lo hi =
    let target = target_level-IsTarget p t level_max in
    (
      λ le. omega (
        arith,
        target.reached (omega arith),
        trip_mono p sane k (target_level p t level_max) lo le target.capped,
      ),
      λ reached. elim (dec_le k (target_level p t level_max)) [
        | yes le ↦ le
        | no gt ↦ absurd (target.above k (omega arith) hi reached)
      ],
    )
