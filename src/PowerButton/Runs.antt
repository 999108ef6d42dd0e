-- ===== src/PowerButton/Runs.antt =====
-- Polls of the button one after the other, on any hardware (PowerButtonPoll of PowerButtonDxe.c).
use rpi5_uefi_build.Common.{
  ℕ, zero, suc, ◌≡◌, refl, sym, subst, ap, ◌∙◌, inl, inr, ◌⊎◌, Bool, true, false, not, ◌&&◌, ◌||◌,
  Option, none, some, List, [], ◌∷◌, ◌++◌, bit_and, ◌==◌, if◌then◌else◌, Bool-cases, arith, u32,
}
use rpi5_uefi_build.Common.Mmio.{Device, M, History, rd, pure, ◌>>=◌}
use rpi5_uefi_build.PowerButton.{
  Button, Reset, shutdown, cold, reg, gio_reg_stat, gio_reg_data, action, poll, sample, release,
}

abbrev pub listed : Option Reset → List Reset
listed none = []
listed (some r) = r ∷ []

module _ (device : Device) where
  -- So many polls, with what they call ResetSystem with, if it returned.
  abbrev pub polls : ℕ → Button → M (List Reset × Button)
  polls zero b = pure ([], b)
  polls (suc n) b = do
    (b', reset) ← poll device b
    (resets, last) ← polls n b'
    pure (listed reset ++ resets, last)

  -- Whether the hardware shows a press to a poll at this point: the latched edge, or the level.
  abbrev pub is_pressed : Button → History → Bool
  is_pressed b h =
      let stat = u32 (device.reply h (reg b gio_reg_stat)) in
      not (bit_and stat b.bit_mask == 0)
      || (let level = u32 (device.reply (rd (reg b gio_reg_stat) stat ∷ h) (reg b gio_reg_data)) in
          let low = bit_and level b.bit_mask == 0 in if b.active_low then low else not low)

  -- A poll without a press reads the two registers.
  abbrev pub idle : Button → History → History
  idle b h =
      let stat = rd (reg b gio_reg_stat) (u32 (device.reply h (reg b gio_reg_stat))) ∷ h in
      rd (reg b gio_reg_data) (u32 (device.reply stat (reg b gio_reg_data))) ∷ stat

  -- No poll of so many sees a press.
  abbrev pub is_quiet : ℕ → Button → History → Bool
  is_quiet zero b h = true
  is_quiet (suc n) b h = let later = is_quiet n b (idle b h) in not (is_pressed b h) && later

  -- What a press asks for.
  abbrev pub wanted : Button → Reset
  wanted b = if b.power_off_on_halt then shutdown else cold

  abbrev pub released : Button → Button
  released b = record b { triggered = true; polling = false }

  -- Without a press nothing happens; at the first one there is one reset, of the kind that
  -- POWER_OFF_ON_HALT asks for, and the timer is stopped.
  abbrev pub Outcome : ℕ → Button → History → List Reset × Button → Type 0
  Outcome n b h r =
      ((is_quiet n b h ≡ true) × (r.0 ≡ []) × (r.1 ≡ b))
      ⊎ ((is_quiet n b h ≡ false) × (r.0 ≡ wanted b ∷ []) × (r.1 ≡ released b))

  -- After the press a poll does not touch a register.
  polls-released :
      (n : ℕ) (b : Button) (h : History) → polls n (released b) h ≡ (([], released b), h)
  unfolding poll
  polls-released zero b h = refl
  polls-released (suc n) b h = polls-released n b h

  sample-is_pressed : (b : Button) (h : History) → (sample device b h).0 ≡ is_pressed b h
  unfolding sample
  sample-is_pressed b h =
      elim (Bool-cases
        (not (bit_and (u32 (device.reply h (reg b gio_reg_stat))) b.bit_mask == 0))) [
          | inl edge ↦ rw edge refl
          | inr none' ↦ rw none' refl
        ]

  sample-idle :
      (b : Button) (h : History) → is_pressed b h ≡ false → (sample device b h).1 ≡ idle b h
  unfolding sample
  sample-idle b h quiet =
      elim (Bool-cases
        (not (bit_and (u32 (device.reply h (reg b gio_reg_stat))) b.bit_mask == 0))) [
          | inl edge ↦ absurd (ground arith)
          | inr none' ↦ rw none' refl
        ]

  -- What the polls do behind a sample.
  behind : ℕ → Button → Bool → M (List Reset × Button)
  behind n b pressed = do
    (resets, last) ← polls n (release b pressed).0
    pure (listed (release b pressed).1 ++ resets, last)

  polls-behind :
      (n : ℕ) (b : Button) (h : History)
      → b.triggered ≡ false
      → polls (suc n) b h ≡ behind n b (is_pressed b h) (sample device b h).1
  unfolding poll behind
  polls-behind n b h waiting =
      let first : Bool → (Button × Option Reset) × History = λ t.
        (if t then pure (b, none) else (sample device b >>= λ pressed. pure (release b pressed)))
          h in
      let rest : (Button × Option Reset) × History → (List Reset × Button) × History =
        λ x. let later = polls n x.0.0 x.1 in ((listed x.0.1 ++ later.0.0, later.0.1), later.1) in
      ap (λ t. rest (first t)) waiting
      ∙ ap (λ p. behind n b p (sample device b h).1) (sample-is_pressed b h)

  Outcome-idle :
      (n : ℕ) (b : Button) (h : History) (r : List Reset × Button)
      → is_pressed b h ≡ false
      → Outcome n b (idle b h) r
      → Outcome (suc n) b h r
  Outcome-idle n b h r quiet outcome =
      let same : is_quiet (suc n) b h ≡ is_quiet n b (idle b h) =
        ap (λ t. not t && is_quiet n b (idle b h)) quiet in
      elim outcome [
        | inl (q, none', kept) ↦ inl (same ∙ q, none', kept)
        | inr (q, one, done) ↦ inr (same ∙ q, one, done)
      ]

  -- On any hardware and for any number of polls from a button that has not triggered: as long
  -- as no poll finds a latched edge or the level of a press, a 0 of an active-low button and a
  -- 1 of another, PowerButtonPoll asks for no reset and the driver stays as it is; from the
  -- first press on there has been exactly one reset, a shutdown if POWER_OFF_ON_HALT is set and
  -- a cold reset if not, the driver has triggered and its timer is stopped.
  pub polls-Outcome :
      (n : ℕ) (b : Button) (h : History) → b.triggered ≡ false → Outcome n b h (polls n b h).0
  unfolding behind
  polls-Outcome zero b h waiting = inl (refl, refl, refl)
  polls-Outcome (suc n) b h waiting = elim (Bool-cases (is_pressed b h)) [
    | inl pressed ↦
        let e =
          polls-behind n b h waiting
          ∙ ap (λ p. behind n b p (sample device b h).1) pressed
          ∙ ap (λ (q : (List Reset × Button) × History). ((action b ∷ q.0.0, q.0.1), q.1))
              (polls-released n b (sample device b h).1) in
        inr (
          ap (λ t. not t && is_quiet n b (idle b h)) pressed,
          ap (λ (x : (List Reset × Button) × History). x.0.0) e,
          ap (λ (x : (List Reset × Button) × History). x.0.1) e,
        )
    | inr quiet ↦
        let e : polls (suc n) b h ≡ polls n b (idle b h) =
          polls-behind n b h waiting
          ∙ ap (λ p. behind n b p (sample device b h).1) quiet
          ∙ ap (behind n b false) (sample-idle b h quiet) in
        subst (λ (x : (List Reset × Button) × History). Outcome (suc n) b h x.0) (sym e)
          (Outcome-idle n b h (polls n b (idle b h)).0 quiet (polls-Outcome n b (idle b h) waiting))
  ]
