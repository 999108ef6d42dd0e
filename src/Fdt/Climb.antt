-- ===== src/Fdt/Climb.antt =====
-- The walk to the root of the device tree ends, with the address that the buses' "ranges" give.
use rpi5_uefi_build.Common.{
  ℕ, zero, suc, ◌+◌, ◌<◌, ◌≡◌, ◌≢◌, refl, sym, ◌∙◌, inl, inr, ◌==◌, Option, none, some, some-eq,
  Bool-cases, arith, subst, ap,
}
use rpi5_uefi_build.Fdt.{
  FdtLib, IsFlattened, Place, Walk, refused, at, step_up, climb, first_reg, translated_reg,
}
use rpi5_uefi_build.Fdt.Ranges.{
  IsUp, IsReg, step_up-IsUp, IsUp-step_up, first_reg-IsReg, >>=-eq-some,
}

module _ (fdt : FdtLib) where
  -- The address on the root's bus, bus by bus.
  pub data Reaches : Place → ℕ → Type 0 where
    here : (p : Place) (a : ℕ) → p.bus ≡ 0 → p.addr ≡ a → Reaches p a
    up : (p q : Place) (a : ℕ) → p.bus ≢ 0 → IsUp fdt p q → Reaches q a → Reaches p a

  -- The walk ends with the address that the place reaches, or is refused where it reaches none.
  pub data Ends (p : Place) : Walk → Type 0 where
    found : (a : ℕ) → Reaches p a → Ends p (at a)
    lost : ((a : ℕ) → ¬ Reaches p a) → Ends p refused

  no_way : (p : Place) (a : ℕ) → Reaches p a → p.bus ≢ 0 → step_up fdt p ≢ none
  no_way p a (here _ _ root e) low none' = low root
  no_way p a (up _ q _ inner u r) low none' = let e = IsUp-step_up fdt p q u in cc

  one_way : (p q : Place) (a : ℕ) → Reaches p a → p.bus ≢ 0 → step_up fdt p ≡ some q → Reaches q a
  one_way p q a (here _ _ root e) low e' = absurd (low root)
  one_way p q a (up _ q' _ inner u r) low e' =
      subst (λ x. Reaches x a) (some-eq (sym (IsUp-step_up fdt p q' u) ∙ e')) r

  Ends-up : (p q : Place) (w : Walk) → p.bus ≢ 0 → step_up fdt p ≡ some q → Ends q w → Ends p w
  Ends-up p q w low e (found a r) = found a (up p q a low (step_up-IsUp fdt p q e) r)
  Ends-up p q w low e (lost none') = lost (λ a r. none' a (one_way p q a r low e))

  module _ (flat : IsFlattened fdt) where
    step_up-less : (p q : Place) → step_up fdt p ≡ some q → q.bus < p.bus
    step_up-less p q e = flat.parent_first p.bus q.bus (step_up-IsUp fdt p q e).parent

    step_up-Ends :
        (fuel : ℕ) (p : Place) (o : Option Place)
        → p.bus ≢ 0
        → step_up fdt p ≡ o
        → ((q : Place) → o ≡ some q → Ends q (climb fdt fuel q))
        → Ends p (elim o [ none ↦ refused | some q ↦ climb fdt fuel q ])
    step_up-Ends fuel p none low e rest = lost (λ a r. no_way p a r low e)
    step_up-Ends fuel p (some q) low e rest = Ends-up p q _ low e (rest q refl)

    climb-Ends : (fuel : ℕ) (p : Place) → p.bus < fuel → Ends p (climb fdt fuel p)
    unfolding climb
    climb-Ends zero p h = absurd (omega arith)
    climb-Ends (suc fuel) p h = elim (Bool-cases (p.bus == 0)) [
      | inl root ↦ rw root (found p.addr (here p p.addr (ground arith) refl))
      | inr inner ↦ rw inner (
          step_up-Ends fuel p (step_up fdt p) (ground arith) refl
            (λ q e. climb-Ends fuel q (omega (arith, step_up-less p q e))))
    ]

    -- In a flattened tree, where a node lies behind its parent: when GetTranslatedRegAddress
    -- has a bus and a register for a node, they are the node's parent and the first entry of
    -- its "reg"; its walk to the root ends, with the address that the first matching entries
    -- of the buses' "ranges" give one after the other, or refused if they give none.
    pub translated_reg-Ends :
        (node : ℕ) (w : Walk) (size : ℕ)
        → translated_reg fdt node ≡ some (w, size)
        → (p : Place) × (bus : ℕ) × (fdt.parent_offset node ≡ some bus)
          × IsReg fdt node bus p size
          × Ends p w
    unfolding translated_reg
    translated_reg-Ends node w size e =
        let (bus, above, e1) = >>=-eq-some (fdt.parent_offset node) _ e in
        let (reg, has_reg, e2) = >>=-eq-some (first_reg fdt node bus) _ e1 in
        let same = some-eq e2 in
        (
          reg.0,
          bus,
          above,
          subst (IsReg fdt node bus reg.0) (ap (λ (x : Walk × ℕ). x.1) same)
              (first_reg-IsReg fdt node bus reg.0 reg.1 has_reg),
          subst (λ w'. Ends reg.0 w') (ap (λ (x : Walk × ℕ). x.0) same)
              (climb-Ends (reg.0.bus + 1) reg.0 (omega arith)),
        )
