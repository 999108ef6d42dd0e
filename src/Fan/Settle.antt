-- ===== src/Fan/Settle.antt =====
-- The closed loop of ActiveCoolerDxe.c at one temperature: its next level, and where it settles.
use rpi5_uefi_build.Common.{
  subst, some-eq, ℕ, zero, suc, ◌+◌, ◌-◌, ◌≤◌, ◌<◌, ◌≡◌, refl, inl, inr, arith, Option, none, some,
  ltb, Bool-cases,
}
use rpi5_uefi_build.Common.Int.{ℤ, pos, negsuc, leb_ℤ, sub_ℕ, ◌≤ℤ◌}
use rpi5_uefi_build.Fan.{target_level, next_level}
use rpi5_uefi_build.Fan.Policy.{FanPolicy, trip_milli_c, level_max, hyst_milli_c}
use rpi5_uefi_build.Fan.Loop.{target_level-IsTarget}

-- What the loop owes at temperature `t`, from the level commanded so far.
pub record IsNext (p : FanPolicy) (t : ℤ) (old : Option ℕ) (new : ℕ) : Type 0 where
  pub capped : new ≤ level_max
  -- enough air: no trip above the new level has been reached
  pub enough : (k : ℕ) → new < k → k ≤ level_max → ¬ (pos (trip_milli_c p k) ≤ℤ t)
  -- a level other than the lowest is started with, or risen to, only at its trip
  pub starts : old ≡ none → 0 < new → pos (trip_milli_c p new) ≤ℤ t
  pub rises : (l : ℕ) → old ≡ some l → l < new → pos (trip_milli_c p new) ≤ℤ t
  -- a level is kept only from the hysteresis band below its trip on
  pub keeps : (l : ℕ) → old ≡ some l → new ≡ l → 0 < l → sub_ℕ (trip_milli_c p l) hyst_milli_c ≤ℤ t
  -- down by one level at most, and only below the hysteresis band
  pub falls :
      (l : ℕ)
      → old ≡ some l
      → new < l
      → (l ≡ new + 1) × ¬ (sub_ℕ (trip_milli_c p l) hyst_milli_c ≤ℤ t)

band_below :
    (p : FanPolicy) (t : ℤ) (l : ℕ)
    → pos (trip_milli_c p l) ≤ℤ t
    → sub_ℕ (trip_milli_c p l) hyst_milli_c ≤ℤ t
band_below p t l reached = below (trip_milli_c p l) t reached
  where
    below : (n : ℕ) (t : ℤ) → pos n ≤ℤ t → sub_ℕ n hyst_milli_c ≤ℤ t
    below n (pos m) h = ground arith
    below n (negsuc m) h = ground arith

module _ (p : FanPolicy) (t : ℤ) where
  next-first : next_level p t none ≡ target_level p t level_max
  unfolding next_level
  next-first = refl

  next-rise :
      (l : ℕ)
      → l ≤ target_level p t level_max
      → next_level p t (some l) ≡ target_level p t level_max
  unfolding next_level
  next-rise l h = ground arith

  next-hold :
      (l : ℕ)
      → target_level p t level_max < l
      → sub_ℕ (trip_milli_c p l) hyst_milli_c ≤ℤ t
      → next_level p t (some l) ≡ l
  unfolding next_level
  next-hold l h band = ground arith

  next-fall :
      (l : ℕ)
      → target_level p t level_max < l
      → ¬ (sub_ℕ (trip_milli_c p l) hyst_milli_c ≤ℤ t)
      → next_level p t (some l) ≡ l - 1
  unfolding next_level
  next-fall l h cold = ground arith

  -- The three ways of the loop from a level.
  data Way (l : ℕ) : Type 0 where
    rise :
        l ≤ target_level p t level_max
        → next_level p t (some l) ≡ target_level p t level_max
        → Way l
    hold :
        target_level p t level_max < l
        → sub_ℕ (trip_milli_c p l) hyst_milli_c ≤ℤ t
        → next_level p t (some l) ≡ l
        → Way l
    fall :
        target_level p t level_max < l
        → ¬ (sub_ℕ (trip_milli_c p l) hyst_milli_c ≤ℤ t)
        → next_level p t (some l) ≡ l - 1
        → Way l

  way : (l : ℕ) → Way l
  way l = elim (Bool-cases (ltb (target_level p t level_max) l)) [
    | inr up ↦ rise (ground arith) (next-rise l (ground arith))
    | inl down ↦ elim (Bool-cases (leb_ℤ (sub_ℕ (trip_milli_c p l) hyst_milli_c) t)) [
      | inl band ↦ hold (ground arith) (ground arith) (next-hold l (ground arith) (ground arith))
      | inr cold ↦ fall (ground arith) (ground arith) (next-fall l (ground arith) (ground arith))
    ]
  ]

  -- From no level or a level of the table, the level that the closed loop commands next has no
  -- reached trip above it; above the lowest level it starts or rises only at a reached trip, it
  -- falls by one at most and only below the hysteresis band, and below that band no level but
  -- the lowest is kept.
  pub next_level-IsNext :
      (old : Option ℕ)
      → ((l : ℕ) → old ≡ some l → l ≤ level_max)
      → IsNext p t old (next_level p t old)
  next_level-IsNext none known =
      let target = target_level-IsTarget p t level_max in
      rw next-first (record {
        capped = target.capped;
        enough = target.above;
        starts = λ e. target.reached;
        rises = λ l e. absurd (cc);
        keeps = λ l e. absurd (cc);
        falls = λ l e. absurd (cc);
      })
  next_level-IsNext (some m) known =
      let target = target_level-IsTarget p t level_max in
      elim (way m) [
        | rise le e ↦ rw e (record {
          capped = target.capped;
          enough = target.above;
          starts = λ e. absurd (cc);
          rises = λ l same h. target.reached (omega arith);
          keeps = λ l same kept some_air.
              let reached = target.reached (omega arith) in
              band_below p t l (subst (λ k. pos (trip_milli_c p k) ≤ℤ t) kept reached);
          falls = λ l same h. absurd (ground arith);
        })
        | hold lt band e ↦ rw e (record {
          capped = known m refl;
          enough = λ k lo hi. target.above k (omega arith) hi;
          starts = λ e. absurd (cc);
          rises = λ l same h. absurd (ground arith);
          keeps = λ l same kept some_air.
              subst (λ k. sub_ℕ (trip_milli_c p k) hyst_milli_c ≤ℤ t) (some-eq same) band;
          falls = λ l same h. absurd (ground arith);
        })
        | fall lt cold e ↦ rw e (record {
          capped = omega (arith, known m refl);
          enough = λ k lo hi. target.above k (omega arith) hi;
          starts = λ e. absurd (cc);
          rises = λ l same h. absurd (ground arith);
          keeps = λ l same kept some_air. absurd (ground arith);
          falls = λ l same h. let at : m ≡ l = cc in (ground arith, rw at at cold);
        })
      ]

  -- `n` rounds of the loop at one temperature.
  unfoldable pub rounds : ℕ → ℕ → ℕ
  rounds zero level = level
  rounds (suc n) level = rounds n (next_level p t (some level))

  -- The loop keeps its target.
  settled-target : next_level p t (some (target_level p t level_max)) ≡ target_level p t level_max
  settled-target = next-rise (target_level p t level_max) (omega arith)

  -- A level that the loop keeps is kept for any number of rounds.
  rounds-settled : (n l : ℕ) → next_level p t (some l) ≡ l → rounds n l ≡ l
  unfolding rounds
  rounds-settled zero l e = refl
  rounds-settled (suc n) l e = rw e (rounds-settled n l e)

  rounds-settles : (n l : ℕ) → l ≤ n → next_level p t (some (rounds (suc n) l)) ≡ rounds (suc n) l
  unfolding rounds
  rounds-settles zero l h = elim (way l) [
    | rise le e ↦ rw e settled-target
    | hold lt band e ↦ rw e e
    | fall lt cold e ↦ absurd (omega arith)
  ]
  rounds-settles (suc n) l h = elim (way l) [
    | rise le e ↦
        rw (e, rounds-settled (suc n) (target_level p t level_max) settled-target) settled-target
    | hold lt band e ↦ rw (e, rounds-settled (suc n) l e) e
    | fall lt cold e ↦ rw e (rounds-settles n (l - 1) (omega arith))
  ]

  -- At a constant temperature and under a constant policy, the loop has settled after five
  -- rounds from any level of the table.
  pub next_level_settles : (l : ℕ) → l ≤ level_max → next_level p t (some (rounds 5 l)) ≡ rounds 5 l
  next_level_settles l h = rounds-settles 4 l h
