-- ===== src/Gem/Phy/Changes.antt =====
-- What the functions of Phy.c change of the private data: the PHY's address and the link.
use rpi5_uefi_build.Common.{ℕ, Bool, true, false, ◌&&◌, Option, none, some, if◌then◌else◌, bit_and}
use rpi5_uefi_build.Common.Mmio.{Device, M, History}
use rpi5_uefi_build.Gem.{Gem, Status, Result, ok, error}
use rpi5_uefi_build.Gem.Mac.{has}
use rpi5_uefi_build.Gem.Mdio.{mdio_read}
use rpi5_uefi_build.Gem.PhyRegs.{phy_bmsr, phy_bmsr_link_status, phy_bmsr_aneg_complete}
use rpi5_uefi_build.Gem.Phy.{
  phy_hw_reset, scan, found, phy_detect, phy_init, init_found, phy_get_config, link_came_up,
  link_read, phy_update_config,
}

-- `P` does not look at the PHY's address and the link.
abbrev pub IgnoresPhy : (Gem → Type 0) → Type 0
IgnoresPhy P =
    (gem : Gem) (phy : ℕ) (up : Bool) → P gem → P (record gem { phy_addr = phy; link_up = up })

-- One of two runs.
pub if_keeps :
    (P : Gem → Type 0) (b : Bool) (m k : M (Status × Gem)) (h : History)
    → P (m h).0.1
    → P (k h).0.1
    → P ((if b then m else k) h).0.1
if_keeps P true m k h p q = p
if_keeps P false m k h p q = q

-- `P` holds of the result, if there is one.
abbrev OkHas : (Gem → Type 0) → Result Gem → Type 0
OkHas P (ok gem) = P gem
OkHas P (error e) = Unit

module _ (device : Device) (P : Gem → Type 0) (ignores : IgnoresPhy P) where
  link_came_up-keeps :
      (gem : Gem) (r : Result (ℕ × Bool)) (h : History)
      → P gem
      → P (link_came_up device gem r h).0.1
  link_came_up-keeps gem (error e) h p = p
  link_came_up-keeps gem (ok config) h p = ignores gem gem.phy_addr true p

  link_read-keeps :
      (gem : Gem) (r : Result ℕ) (h : History) → P gem → P (link_read device gem r h).0.1
  link_read-keeps gem (error e) h p = p
  link_read-keeps gem (ok bmsr) h p =
      let config = phy_get_config device gem h in
      if_keeps P (has bmsr phy_bmsr_link_status && has bmsr phy_bmsr_aneg_complete) _ _ h
        (if_keeps P gem.link_up _ _ h p (link_came_up-keeps gem config.0 config.1 p))
        (ignores gem gem.phy_addr false p)

  pub phy_update_config-keeps :
      (gem : Gem) (h : History) → P gem → P (phy_update_config device gem h).0.1
  unfolding phy_update_config
  phy_update_config-keeps gem h p =
      let r = mdio_read device gem gem.phy_addr phy_bmsr h in link_read-keeps gem r.0 r.1 p

  init_found-keeps :
      (gem : Gem) (r : Result Gem) (h : History)
      → P gem
      → OkHas P r
      → P (init_found device gem r h).0.1
  init_found-keeps gem (error e) h p q = p
  init_found-keeps gem (ok gem') h p q = q

  found-OkHas : (gem : Gem) (o : Option ℕ) (h : History) → P gem → OkHas P (found device gem o h).0
  found-OkHas gem (some phy) h p = ignores gem phy gem.link_up p
  found-OkHas gem none h p = tt

  pub phy_init-keeps :
      (rp1_base : Option ℕ) (pcd : ℕ) (gem : Gem) (h : History)
      → P gem
      → P (phy_init device rp1_base pcd gem h).0.1
  unfolding phy_init phy_detect
  phy_init-keeps rp1_base pcd gem h p =
      let down : Gem = record gem { link_up = false } in
      let first = scan device down 32 (bit_and pcd 0x1f) (phy_hw_reset device rp1_base h).1 in
      let detected = found device down first.0 first.1 in
      let p' = ignores gem gem.phy_addr false p in
      init_found-keeps down detected.0 detected.1 p' (found-OkHas down first.0 first.1 p')
