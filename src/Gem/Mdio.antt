-- ===== src/Gem/Mdio.antt =====
-- GemMdioRead and GemMdioWrite of GemHw.c (Silicon/Broadcom/Drivers/Net/Rp1GemDxe). The delays between
-- the polls are left out.
use rpi5_uefi_build.Common.{
  ℕ, zero, suc, ◌+◌, ◌*◌, ◌^◌, Bool, true, false, not, ◌==◌, if◌then◌else◌, u16, u32, u64, bit_and,
  bit_or,
}
use rpi5_uefi_build.Common.Mmio.{Device, M, pure, or32, ◌>>=◌, ◌>>◌}
use rpi5_uefi_build.Gem.{Gem, Result, ok, error, timeout}
use rpi5_uefi_build.Gem.Regs.{
  net_ctrl, net_ctrl_mgmt_port_en, net_stat, net_stat_phy_mgmt_idle, phy_maint, phy_maint_clause_22,
  phy_maint_op_read, phy_maint_op_write, phy_maint_phy_addr_shift, phy_maint_reg_addr_shift,
  phy_maint_must_10, phy_maint_data_mask, gem_read32, gem_write32,
}

-- GEM_MDIO_TIMEOUT_TRIES
abbrev pub mdio_timeout_tries : ℕ
mdio_timeout_tries = 400

-- The next step of a chain that returns at the first error.
infixl 5 ◌>>?◌
abbrev pub ◌>>?◌ {ℓ κ} :
    {A : Type ℓ} {B : Type κ} → M (Result A) → (A → M (Result B)) → M (Result B)
m >>? f = m >>= on_ok f
  where
    on_ok : {A : Type ℓ} {B : Type κ} → (A → M (Result B)) → Result A → M (Result B)
    on_ok g (ok a) = g a
    on_ok g (error e) = pure (error e)

-- The frame that starts an operation on a register.
abbrev pub mdio_frame : ℕ → ℕ → ℕ → ℕ
mdio_frame op phy reg =
    bit_or
      (bit_or (bit_or (bit_or phy_maint_clause_22 phy_maint_must_10) op)
        (u32 (bit_and phy 0x1f * 2 ^ phy_maint_phy_addr_shift)))
      (u32 (bit_and reg 0x1f * 2 ^ phy_maint_reg_addr_shift))

module _ (device : Device) (gem : Gem) where
  -- The management interface goes idle within so many polls.
  unfoldable pub wait_idle : ℕ → M Bool
  wait_idle zero = pure false
  wait_idle (suc n) =
      let rest = wait_idle n in
      gem_read32 device gem.gem_base net_stat >>= λ stat.
      if not (bit_and stat net_stat_phy_mgmt_idle == 0) then pure true else rest

  -- `GemMdioRead`
  unfoldable pub mdio_read : ℕ → ℕ → M (Result ℕ)
  mdio_read phy reg =
      let answer = do
        value ← gem_read32 device gem.gem_base phy_maint
        pure (ok (u16 (bit_and value phy_maint_data_mask)))
      in do
        or32 device (u64 (gem.gem_base + net_ctrl)) net_ctrl_mgmt_port_en
        gem_write32 gem.gem_base phy_maint (mdio_frame phy_maint_op_read phy reg)
        idle ← wait_idle mdio_timeout_tries
        (if idle then answer else pure (error timeout))

  -- `GemMdioWrite`
  unfoldable pub mdio_write : ℕ → ℕ → ℕ → M (Result (Unit {0}))
  mdio_write phy reg value = do
    or32 device (u64 (gem.gem_base + net_ctrl)) net_ctrl_mgmt_port_en
    gem_write32 gem.gem_base phy_maint (bit_or (mdio_frame phy_maint_op_write phy reg) value)
    idle ← wait_idle mdio_timeout_tries
    pure (if idle then ok tt else error timeout)
