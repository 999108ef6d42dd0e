-- ===== src/Gem/PhyRegs.antt =====
-- The registers of the PHY and their fields: the constants of Phy.c (Silicon/Broadcom/Drivers/Net/Rp1GemDxe).
use rpi5_uefi_build.Common.{ℕ, ◌^◌}

abbrev pub phy_reset_gpio : ℕ
phy_reset_gpio = 32

abbrev pub phy_reset_assert_us : ℕ
phy_reset_assert_us = 5000

abbrev pub phy_reset_settle_us : ℕ
phy_reset_settle_us = 15000

abbrev pub phy_bmcr : ℕ
phy_bmcr = 0x00

abbrev pub phy_bmcr_reset : ℕ
phy_bmcr_reset = 2 ^ 15

abbrev pub phy_bmcr_ane : ℕ
phy_bmcr_ane = 2 ^ 12

abbrev pub phy_bmcr_restart_an : ℕ
phy_bmcr_restart_an = 2 ^ 9

abbrev pub phy_bmsr : ℕ
phy_bmsr = 0x01

abbrev pub phy_bmsr_aneg_complete : ℕ
phy_bmsr_aneg_complete = 2 ^ 5

abbrev pub phy_bmsr_link_status : ℕ
phy_bmsr_link_status = 2 ^ 2

abbrev pub phy_idr1 : ℕ
phy_idr1 = 0x02

abbrev pub phy_idr2 : ℕ
phy_idr2 = 0x03

abbrev pub phy_anar : ℕ
phy_anar = 0x04

abbrev pub phy_anar_100basetx_fdx : ℕ
phy_anar_100basetx_fdx = 2 ^ 8

abbrev pub phy_anar_100basetx : ℕ
phy_anar_100basetx = 2 ^ 7

abbrev pub phy_anar_10baset_fdx : ℕ
phy_anar_10baset_fdx = 2 ^ 6

abbrev pub phy_anar_10baset : ℕ
phy_anar_10baset = 2 ^ 5

abbrev pub phy_anlpar : ℕ
phy_anlpar = 0x05

abbrev pub phy_gbcr : ℕ
phy_gbcr = 0x09

abbrev pub phy_gbcr_1000baset_fdx : ℕ
phy_gbcr_1000baset_fdx = 2 ^ 9

abbrev pub phy_gbcr_1000baset : ℕ
phy_gbcr_1000baset = 2 ^ 8

abbrev pub phy_gbsr : ℕ
phy_gbsr = 0x0a

abbrev pub phy_bcm_auxctl : ℕ
phy_bcm_auxctl = 0x18

abbrev pub phy_bcm_auxctl_shd_misc : ℕ
phy_bcm_auxctl_shd_misc = 0x0007

abbrev pub phy_bcm_auxctl_misc_wren : ℕ
phy_bcm_auxctl_misc_wren = 0x8000

abbrev pub phy_bcm_auxctl_misc_rgmii_skew : ℕ
phy_bcm_auxctl_misc_rgmii_skew = 0x0100

abbrev pub phy_bcm_shd : ℕ
phy_bcm_shd = 0x1c

abbrev pub phy_bcm_shd_write : ℕ
phy_bcm_shd_write = 0x8000

abbrev pub phy_bcm_shd_clk_ctl : ℕ
phy_bcm_shd_clk_ctl = 0x03

abbrev pub phy_bcm_shd_clk_ctl_gtxclk_en : ℕ
phy_bcm_shd_clk_ctl_gtxclk_en = 2 ^ 9

abbrev pub phy_id1_bcm54xx : ℕ
phy_id1_bcm54xx = 0x600d

abbrev pub phy_reset_timeout : ℕ
phy_reset_timeout = 500
