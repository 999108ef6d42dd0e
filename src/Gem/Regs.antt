-- ===== src/Gem/Regs.antt =====
-- The registers of the Ethernet MAC, and its accesses: GemHw.h of Silicon/Broadcom/Drivers/Net/Rp1GemDxe
-- (under meta-rpi5-uefi/recipes-bsp/edk2-platforms/files/edk2-platforms). GEM_ is left off the names.
use rpi5_uefi_build.Common.{ℕ, ◌+◌, ◌-◌, ◌*◌, ◌/◌, ◌^◌, u32, u64}
use rpi5_uefi_build.Common.Mmio.{Device, M, read32, write32}

abbrev pub net_ctrl : ℕ
net_ctrl = 0x000

abbrev pub net_ctrl_start_tx : ℕ
net_ctrl_start_tx = 2 ^ 9

abbrev pub net_ctrl_clr_stat_regs : ℕ
net_ctrl_clr_stat_regs = 2 ^ 5

abbrev pub net_ctrl_mgmt_port_en : ℕ
net_ctrl_mgmt_port_en = 2 ^ 4

abbrev pub net_ctrl_tx_en : ℕ
net_ctrl_tx_en = 2 ^ 3

abbrev pub net_ctrl_rx_en : ℕ
net_ctrl_rx_en = 2 ^ 2

abbrev pub net_cfg : ℕ
net_cfg = 0x004

abbrev pub net_cfg_dbus_width_32 : ℕ
net_cfg_dbus_width_32 = 0 * 2 ^ 21

abbrev pub net_cfg_dbus_width_64 : ℕ
net_cfg_dbus_width_64 = 1 * 2 ^ 21

abbrev pub net_cfg_dbus_width_128 : ℕ
net_cfg_dbus_width_128 = 2 * 2 ^ 21

abbrev pub net_cfg_mdc_clk_div_96 : ℕ
net_cfg_mdc_clk_div_96 = 5 * 2 ^ 18

abbrev pub net_cfg_fcs_remove : ℕ
net_cfg_fcs_remove = 2 ^ 17

abbrev pub net_cfg_pause_en : ℕ
net_cfg_pause_en = 2 ^ 13

abbrev pub net_cfg_gige_en : ℕ
net_cfg_gige_en = 2 ^ 10

abbrev pub net_cfg_1536rxen : ℕ
net_cfg_1536rxen = 2 ^ 8

abbrev pub net_cfg_uni_hash_en : ℕ
net_cfg_uni_hash_en = 2 ^ 7

abbrev pub net_cfg_multi_hash_en : ℕ
net_cfg_multi_hash_en = 2 ^ 6

abbrev pub net_cfg_no_bcast : ℕ
net_cfg_no_bcast = 2 ^ 5

abbrev pub net_cfg_copy_all : ℕ
net_cfg_copy_all = 2 ^ 4

abbrev pub net_cfg_full_duplex : ℕ
net_cfg_full_duplex = 2 ^ 1

abbrev pub net_cfg_speed100 : ℕ
net_cfg_speed100 = 2 ^ 0

abbrev pub net_stat : ℕ
net_stat = 0x008

abbrev pub net_stat_phy_mgmt_idle : ℕ
net_stat_phy_mgmt_idle = 2 ^ 2

abbrev pub user_io : ℕ
user_io = 0x00c

abbrev pub user_io_rgmii : ℕ
user_io_rgmii = 0x2

abbrev pub dma_cfg : ℕ
dma_cfg = 0x010

abbrev pub dma_cfg_addr_bus_64 : ℕ
dma_cfg_addr_bus_64 = 2 ^ 30

abbrev pub dma_cfg_disc_when_no_ahb : ℕ
dma_cfg_disc_when_no_ahb = 2 ^ 24

abbrev pub dma_cfg_tx_pktbuf_full : ℕ
dma_cfg_tx_pktbuf_full = 2 ^ 10

abbrev pub dma_cfg_rx_pktbuf_full : ℕ
dma_cfg_rx_pktbuf_full = 3 * 2 ^ 8

abbrev pub dma_cfg_ahb_burst_len_16 : ℕ
dma_cfg_ahb_burst_len_16 = 16 * 2 ^ 0

abbrev pub tx_stat : ℕ
tx_stat = 0x014

abbrev pub tx_stat_underrun : ℕ
tx_stat_underrun = 2 ^ 6

abbrev pub tx_stat_complete : ℕ
tx_stat_complete = 2 ^ 5

abbrev pub tx_stat_used_bit_read : ℕ
tx_stat_used_bit_read = 2 ^ 0

abbrev pub tx_stat_all : ℕ
tx_stat_all = 0x1ff

abbrev pub rx_qbar : ℕ
rx_qbar = 0x018

abbrev pub tx_qbar : ℕ
tx_qbar = 0x01c

abbrev pub rx_stat : ℕ
rx_stat = 0x020

abbrev pub rx_stat_overrun : ℕ
rx_stat_overrun = 2 ^ 2

abbrev pub rx_stat_frame_recd : ℕ
rx_stat_frame_recd = 2 ^ 1

abbrev pub rx_stat_buf_not_avail : ℕ
rx_stat_buf_not_avail = 2 ^ 0

abbrev pub rx_stat_all : ℕ
rx_stat_all = 0xf

abbrev pub intr_dis : ℕ
intr_dis = 0x02c

abbrev pub intr_all : ℕ
intr_all = 0x7ff_feff

abbrev pub phy_maint : ℕ
phy_maint = 0x034

abbrev pub phy_maint_clause_22 : ℕ
phy_maint_clause_22 = 2 ^ 30

abbrev pub phy_maint_op_read : ℕ
phy_maint_op_read = 2 * 2 ^ 28

abbrev pub phy_maint_op_write : ℕ
phy_maint_op_write = 1 * 2 ^ 28

abbrev pub phy_maint_phy_addr_shift : ℕ
phy_maint_phy_addr_shift = 23

abbrev pub phy_maint_reg_addr_shift : ℕ
phy_maint_reg_addr_shift = 18

abbrev pub phy_maint_must_10 : ℕ
phy_maint_must_10 = 2 * 2 ^ 16

abbrev pub phy_maint_data_mask : ℕ
phy_maint_data_mask = 0xffff

abbrev pub amp : ℕ
amp = 0x054

abbrev pub amp_ar2r_max_pipe_shift : ℕ
amp_ar2r_max_pipe_shift = 0

abbrev pub amp_ar2r_max_pipe_mask : ℕ
amp_ar2r_max_pipe_mask = 0xff * 2 ^ 0

abbrev pub amp_aw2w_max_pipe_shift : ℕ
amp_aw2w_max_pipe_shift = 8

abbrev pub amp_aw2w_max_pipe_mask : ℕ
amp_aw2w_max_pipe_mask = 0xff * 2 ^ 8

abbrev pub amp_aw2b_fill : ℕ
amp_aw2b_fill = 2 ^ 16

abbrev pub hash_bot : ℕ
hash_bot = 0x080

abbrev pub hash_top : ℕ
hash_top = 0x084

abbrev pub design_cfg1 : ℕ
design_cfg1 = 0x280

abbrev pub design_cfg1_dbw_mask : ℕ
design_cfg1_dbw_mask = 7 * 2 ^ 25

abbrev pub design_cfg1_dbw_64 : ℕ
design_cfg1_dbw_64 = 2 * 2 ^ 25

abbrev pub design_cfg1_dbw_128 : ℕ
design_cfg1_dbw_128 = 4 * 2 ^ 25

abbrev pub design_cfg6 : ℕ
design_cfg6 = 0x294

abbrev pub design_cfg6_prio_q_mask : ℕ
design_cfg6_prio_q_mask = 0xfffe

abbrev pub tx_qbar_hi : ℕ
tx_qbar_hi = 0x4c8

abbrev pub rx_qbar_hi : ℕ
rx_qbar_hi = 0x4d4

abbrev pub rxdesc_addr_own : ℕ
rxdesc_addr_own = 2 ^ 0

abbrev pub rxdesc_addr_wrap : ℕ
rxdesc_addr_wrap = 2 ^ 1

abbrev pub rxdesc_ctrl_eof : ℕ
rxdesc_ctrl_eof = 2 ^ 15

abbrev pub rxdesc_ctrl_sof : ℕ
rxdesc_ctrl_sof = 2 ^ 14

abbrev pub rxdesc_ctrl_length_mask : ℕ
rxdesc_ctrl_length_mask = 0x1fff

abbrev pub txdesc_ctrl_used : ℕ
txdesc_ctrl_used = 2 ^ 31

abbrev pub txdesc_ctrl_wrap : ℕ
txdesc_ctrl_wrap = 2 ^ 30

abbrev pub txdesc_ctrl_retry_err : ℕ
txdesc_ctrl_retry_err = 2 ^ 29

abbrev pub txdesc_ctrl_ahb_err : ℕ
txdesc_ctrl_ahb_err = 2 ^ 27

abbrev pub txdesc_ctrl_late_coll : ℕ
txdesc_ctrl_late_coll = 2 ^ 26

abbrev pub txdesc_ctrl_last_buf : ℕ
txdesc_ctrl_last_buf = 2 ^ 15

abbrev pub txdesc_ctrl_length_mask : ℕ
txdesc_ctrl_length_mask = 0x3fff

abbrev pub spec_addr_low : ℕ → ℕ
spec_addr_low n = 0x88 + n * 8

abbrev pub spec_addr_hi : ℕ → ℕ
spec_addr_hi n = 0x8c + n * 8

abbrev pub tx_qn_bar : ℕ → ℕ
tx_qn_bar n = 0x440 + (n - 1) * 4

abbrev pub rx_qn_bar : ℕ → ℕ
rx_qn_bar n = 0x480 + (n - 1) * 4

abbrev pub dma_cfg_rx_buf_size : ℕ → ℕ
dma_cfg_rx_buf_size size = u32 ((size + 63) / 64 * 2 ^ 16)

-- GemRead32
abbrev pub gem_read32 : Device → ℕ → ℕ → M ℕ
gem_read32 device base offset = read32 device (u64 (base + offset))

-- GemWrite32
abbrev pub gem_write32 : ℕ → ℕ → ℕ → M (Unit {0})
gem_write32 base offset value = write32 (u64 (base + offset)) value
