-- ===== src/Gem/Phy.antt =====
-- Phy.c of Silicon/Broadcom/Drivers/Net/Rp1GemDxe: detection, reset, autonegotiation and link state of
-- the PHY. Delays and DEBUG output, with the register reads among its arguments, are left out.
pub mod Changes
pub mod Resolve
use rpi5_uefi_build.Common.{
  ℕ, zero, suc, ◌+◌, ◌*◌, ◌/◌, ◌^◌, Bool, true, false, not, ◌&&◌, ◌||◌, Option, none, some, ◌==◌,
  if◌then◌else◌, u16, not32, bit_and, bit_or,
}
use rpi5_uefi_build.Common.Mmio.{Device, M, pure, ◌>>=◌, ◌>>◌}
use rpi5_uefi_build.Rp1Gpio.{gpio_write, set_direction}
use rpi5_uefi_build.Gem.{Gem, Status, Result, ok, error, success, not_found, not_ready, timeout}
use rpi5_uefi_build.Gem.Mac.{has, update_link_speed}
use rpi5_uefi_build.Gem.Mdio.{mdio_read, mdio_write, ◌>>?◌}
use rpi5_uefi_build.Gem.PhyRegs.{
  phy_reset_gpio, phy_bmcr, phy_bmcr_reset, phy_bmcr_ane, phy_bmcr_restart_an, phy_bmsr,
  phy_bmsr_aneg_complete, phy_bmsr_link_status, phy_idr1, phy_idr2, phy_anar,
  phy_anar_100basetx_fdx, phy_anar_100basetx, phy_anar_10baset_fdx, phy_anar_10baset, phy_anlpar,
  phy_gbcr, phy_gbcr_1000baset_fdx, phy_gbcr_1000baset, phy_gbsr, phy_bcm_auxctl,
  phy_bcm_auxctl_shd_misc, phy_bcm_auxctl_misc_wren, phy_bcm_auxctl_misc_rgmii_skew, phy_bcm_shd,
  phy_bcm_shd_write, phy_bcm_shd_clk_ctl, phy_bcm_shd_clk_ctl_gtxclk_en, phy_id1_bcm54xx,
  phy_reset_timeout,
}

-- What an identifier pair says: something drives the bus.
abbrev pub answers : ℕ → ℕ → Bool
answers id1 id2 = not (id1 == 0xffff) && not (id2 == 0xffff) && (not (id1 == 0) || not (id2 == 0))

-- *FullDuplex and *SpeedMbps for the registers GBCR, GBSR, ANAR and ANLPAR.
unfoldable pub resolve : ℕ → ℕ → ℕ → ℕ → ℕ × Bool
resolve gbcr gbsr anar anlpar =
    let gb = u16 (bit_and (gbsr / 2 ^ 2) gbcr) in
    let an = u16 (bit_and anlpar anar) in
    if has gb (bit_or phy_gbcr_1000baset_fdx phy_gbcr_1000baset)
    then (1000, has gb phy_gbcr_1000baset_fdx)
    else if has an (bit_or phy_anar_100basetx_fdx phy_anar_100basetx)
    then (100, has an phy_anar_100basetx_fdx)
    else (10, has an phy_anar_10baset_fdx)

module _ (device : Device) where
  -- `Rp1GemPhyHwReset`; the base is what the RP1 bus protocol gives, if it is there.
  unfoldable pub phy_hw_reset : Option ℕ → M (Unit {0})
  phy_hw_reset none = pure tt
  phy_hw_reset (some base) = do
    gpio_write device base phy_reset_gpio false
    set_direction device base phy_reset_gpio true
    gpio_write device base phy_reset_gpio true

  -- The two identifier reads of a probed address; `next` goes on with the next one.
  abbrev pub second_id : ℕ → M (Option ℕ) → ℕ → Result ℕ → M (Option ℕ)
  second_id phy next id1 (error e) = next
  second_id phy next id1 (ok id2) = if answers id1 id2 then pure (some phy) else next

  abbrev pub first_id : Gem → ℕ → M (Option ℕ) → Result ℕ → M (Option ℕ)
  first_id gem phy next (error e) = next
  first_id gem phy next (ok id1) = mdio_read device gem phy phy_idr2 >>= second_id phy next id1

  -- The address of the first PHY that answers among so many from one on, around the bus.
  unfoldable pub scan : Gem → ℕ → ℕ → M (Option ℕ)
  scan gem zero phy = pure none
  scan gem (suc n) phy =
      let next = scan gem n (bit_and (phy + 1) 0x1f) in
      mdio_read device gem phy phy_idr1 >>= first_id gem phy next

  -- The reads for the diagnostic of a bus on which nothing answers.
  unfoldable pub survey : Gem → ℕ → ℕ → M (Unit {0})
  survey gem zero phy = pure tt
  survey gem (suc n) phy =
      let next = survey gem n (phy + 1) in mdio_read device gem phy phy_idr1 >>= λ r. next

  abbrev pub found : Gem → Option ℕ → M (Result Gem)
  found gem (some phy) = pure (ok (record gem { phy_addr = phy }))
  found gem none = do survey gem 32 0; pure (error not_found)

  -- `Rp1GemPhyDetect`; the second argument is PcdRp1GemPhyAddress.
  unfoldable pub phy_detect : Option ℕ → ℕ → Gem → M (Result Gem)
  phy_detect rp1_base pcd gem = do
    phy_hw_reset rp1_base
    phy ← scan gem 32 (bit_and pcd 0x1f)
    found gem phy

  -- BMCR's reset bit clears within so many polls.
  unfoldable pub wait_reset : Gem → ℕ → M (Result (Unit {0}))
  wait_reset gem zero = pure (error timeout)
  wait_reset gem (suc n) =
      let rest = wait_reset gem n in
      mdio_read device gem gem.phy_addr phy_bmcr >>? λ value.
      if bit_and value phy_bmcr_reset == 0 then pure (ok tt) else rest

  -- `Rp1GemPhyReset`
  unfoldable pub phy_reset : Gem → M (Result (Unit {0}))
  phy_reset gem = mdio_write device gem gem.phy_addr phy_bmcr phy_bmcr_reset >>? λ u.
      wait_reset gem phy_reset_timeout

  -- The selectors of the two shadow registers.
  abbrev pub misc_select : ℕ
  misc_select = bit_or (phy_bcm_auxctl_shd_misc * 2 ^ 12) phy_bcm_auxctl_shd_misc

  abbrev pub clock_select : ℕ
  clock_select = phy_bcm_shd_clk_ctl * 2 ^ 10

  -- The readback behind the delays; its outcome is only printed.
  abbrev pub read_back : Gem → M (Result (Unit {0}))
  read_back gem = mdio_write device gem gem.phy_addr phy_bcm_auxctl misc_select >>= λ r.
      mdio_read device gem gem.phy_addr phy_bcm_auxctl >>= λ r.
      mdio_write device gem gem.phy_addr phy_bcm_shd clock_select >>= λ r.
      mdio_read device gem gem.phy_addr phy_bcm_shd >>= λ r. pure (ok tt)

  abbrev pub program_delays : Gem → M (Result (Unit {0}))
  program_delays gem = mdio_write device gem gem.phy_addr phy_bcm_auxctl misc_select >>? λ u.
      mdio_read device gem gem.phy_addr phy_bcm_auxctl >>? λ aux.
      mdio_write device gem gem.phy_addr phy_bcm_auxctl (
        bit_or phy_bcm_auxctl_shd_misc
          (bit_or aux (bit_or phy_bcm_auxctl_misc_wren phy_bcm_auxctl_misc_rgmii_skew)))
      >>? λ u. mdio_write device gem gem.phy_addr phy_bcm_shd clock_select >>? λ u.
          mdio_read device gem gem.phy_addr phy_bcm_shd >>? λ shd.
          mdio_write device gem gem.phy_addr phy_bcm_shd (
            bit_or (bit_or phy_bcm_shd_write clock_select)
              (bit_or (bit_and shd 0x3ff) phy_bcm_shd_clk_ctl_gtxclk_en))
          >>? λ u. read_back gem

  -- `Rp1GemPhyConfigRgmiiDelays`
  unfoldable pub phy_config_rgmii_delays : Gem → M (Result (Unit {0}))
  phy_config_rgmii_delays gem = mdio_read device gem gem.phy_addr phy_idr1 >>? λ id1.
      if not (id1 == phy_id1_bcm54xx) then pure (ok tt) else program_delays gem

  -- `Rp1GemPhyAutoNegotiate`
  unfoldable pub phy_auto_negotiate : Gem → M (Result (Unit {0}))
  phy_auto_negotiate gem = mdio_read device gem gem.phy_addr phy_anar >>? λ anar.
      mdio_write device gem gem.phy_addr phy_anar (
        bit_or anar (
          bit_or (bit_or (bit_or phy_anar_100basetx_fdx phy_anar_100basetx) phy_anar_10baset_fdx)
            phy_anar_10baset))
      >>? λ u. mdio_read device gem gem.phy_addr phy_gbcr >>? λ gbcr.
          mdio_write device gem gem.phy_addr phy_gbcr
            (bit_and (bit_or gbcr phy_gbcr_1000baset_fdx) (u16 (not32 phy_gbcr_1000baset)))
          >>? λ u. mdio_read device gem gem.phy_addr phy_bmcr >>? λ bmcr.
              mdio_write device gem gem.phy_addr phy_bmcr
                (bit_or bmcr (bit_or phy_bmcr_ane phy_bmcr_restart_an))

  -- `Rp1GemPhyInit`: its status and the private data.
  abbrev pub init_found : Gem → Result Gem → M (Result (Unit {0}) × Gem)
  init_found gem (error e) = pure (error e, gem)
  init_found gem (ok gem') = do
    r ← phy_reset gem' >>? λ u. phy_config_rgmii_delays gem' >>? λ u. phy_auto_negotiate gem'
    pure (r, gem')

  unfoldable pub phy_init : Option ℕ → ℕ → Gem → M (Result (Unit {0}) × Gem)
  phy_init rp1_base pcd gem = do
    let down : Gem = record gem { link_up = false }
    r ← phy_detect rp1_base pcd down
    init_found down r

  -- `Rp1GemPhyGetConfig`
  unfoldable pub phy_get_config : Gem → M (Result (ℕ × Bool))
  phy_get_config gem = mdio_read device gem gem.phy_addr phy_gbcr >>? λ gbcr.
      mdio_read device gem gem.phy_addr phy_gbsr >>? λ gbsr.
      mdio_read device gem gem.phy_addr phy_anar >>? λ anar.
      mdio_read device gem gem.phy_addr phy_anlpar >>? λ anlpar.
      pure (ok (resolve gbcr gbsr anar anlpar))

  -- A link that has come up, with its configuration.
  abbrev pub link_came_up : Gem → Result (ℕ × Bool) → M (Status × Gem)
  link_came_up gem (error e) = pure (e, gem)
  link_came_up gem (ok config) = do
    update_link_speed device gem config.0 config.1
    pure (success, record gem { link_up = true })

  abbrev pub link_read : Gem → Result ℕ → M (Status × Gem)
  link_read gem (error e) = pure (e, gem)
  link_read gem (ok bmsr) =
      let up = has bmsr phy_bmsr_link_status && has bmsr phy_bmsr_aneg_complete in
      if up
      then if gem.link_up then pure (success, gem) else phy_get_config gem >>= link_came_up gem
      else pure (not_ready, record gem { link_up = false })

  -- `Rp1GemPhyUpdateConfig`
  unfoldable pub phy_update_config : Gem → M (Status × Gem)
  phy_update_config gem = mdio_read device gem gem.phy_addr phy_bmsr >>= link_read gem
