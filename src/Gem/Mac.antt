-- ===== src/Gem/Mac.antt =====
-- The MAC's registers and rings at bring-up: GemMacReset, GemMacConfigure and what they call, of GemHw.c
-- (Silicon/Broadcom/Drivers/Net/Rp1GemDxe).
pub mod Fresh
pub mod Link
use rpi5_uefi_build.Common.{
  ℕ, zero, suc, ◌+◌, ◌-◌, ◌*◌, ◌/◌, ◌^◌, Bool, not, ◌==◌, if◌then◌else◌, u16, u32, u64, not32,
  bit_and, bit_or, Mem,
}
use rpi5_uefi_build.Common.Mmio.{Device, M, pure, or32, and32, ◌>>=◌, ◌>>◌}
use rpi5_uefi_build.Gem.{
  Gem, Desc, fill, rx_desc_count, tx_desc_count, rx_buffer_size, tx_buffer_size,
}
use rpi5_uefi_build.Gem.Regs.{
  net_ctrl, net_ctrl_clr_stat_regs, net_ctrl_mgmt_port_en, net_ctrl_tx_en, net_ctrl_rx_en, net_cfg,
  net_cfg_dbus_width_32, net_cfg_dbus_width_64, net_cfg_dbus_width_128, net_cfg_mdc_clk_div_96,
  net_cfg_fcs_remove, net_cfg_pause_en, net_cfg_gige_en, net_cfg_1536rxen, net_cfg_uni_hash_en,
  net_cfg_multi_hash_en, net_cfg_no_bcast, net_cfg_copy_all, net_cfg_full_duplex, net_cfg_speed100,
  user_io, user_io_rgmii, dma_cfg, dma_cfg_addr_bus_64, dma_cfg_disc_when_no_ahb,
  dma_cfg_tx_pktbuf_full, dma_cfg_rx_pktbuf_full, dma_cfg_ahb_burst_len_16, tx_stat, tx_stat_all,
  rx_qbar, tx_qbar, rx_stat, rx_stat_all, intr_dis, intr_all, amp, amp_ar2r_max_pipe_shift,
  amp_ar2r_max_pipe_mask, amp_aw2w_max_pipe_shift, amp_aw2w_max_pipe_mask, amp_aw2b_fill, hash_bot,
  hash_top, design_cfg1, design_cfg1_dbw_mask, design_cfg1_dbw_64, design_cfg1_dbw_128, design_cfg6,
  design_cfg6_prio_q_mask, tx_qbar_hi, rx_qbar_hi, rxdesc_addr_own, rxdesc_addr_wrap,
  txdesc_ctrl_used, txdesc_ctrl_wrap, spec_addr_low, spec_addr_hi, tx_qn_bar, rx_qn_bar,
  dma_cfg_rx_buf_size, gem_read32, gem_write32,
}

module _ (device : Device) where
  -- `GemNetCfgBase`
  unfoldable pub net_cfg_base : Gem → M ℕ
  net_cfg_base gem = do
    design ← gem_read32 device gem.gem_base design_cfg1
    let width = bit_and design design_cfg1_dbw_mask
    let chosen =
        if width == design_cfg1_dbw_64
        then net_cfg_dbus_width_64
        else if width == design_cfg1_dbw_128
        then net_cfg_dbus_width_128
        else net_cfg_dbus_width_32
    pure (bit_or chosen net_cfg_mdc_clk_div_96)

  -- `GemMacReset`
  unfoldable pub mac_reset : Gem → M (Unit {0})
  unfolding net_cfg_base
  mac_reset gem = do
    gem_write32 gem.gem_base net_ctrl 0
    base ← net_cfg_base gem
    gem_write32 gem.gem_base net_cfg base
    gem_write32 gem.gem_base user_io user_io_rgmii
    gem_write32 gem.gem_base net_ctrl net_ctrl_clr_stat_regs
    gem_write32 gem.gem_base tx_stat tx_stat_all
    gem_write32 gem.gem_base rx_stat rx_stat_all
    gem_write32 gem.gem_base intr_dis intr_all
    gem_write32 gem.gem_base hash_bot 0
    gem_write32 gem.gem_base hash_top 0
    gem_write32 gem.gem_base tx_qbar 0
    gem_write32 gem.gem_base rx_qbar 0
    gem_write32 gem.gem_base tx_qbar_hi 0
    gem_write32 gem.gem_base rx_qbar_hi 0
    gem_write32 gem.gem_base net_ctrl net_ctrl_mgmt_port_en

-- What GemInitRings writes into descriptor `index` of each ring.
abbrev pub initial_rx : Gem → ℕ → Desc
initial_rx gem index =
    let at = u64 (gem.rx_buffers + index * rx_buffer_size) in
    record {
      addr = bit_or (u32 at) (if index == rx_desc_count - 1 then rxdesc_addr_wrap else 0);
      ctrl = 0;
      addr_hi = u32 (at / 2 ^ 32);
      unused = 0;
    }

abbrev pub initial_tx : Gem → ℕ → Desc
initial_tx gem index =
    let at = u64 (gem.tx_buffers + index * tx_buffer_size) in
    record {
      addr = u32 at;
      ctrl = bit_or txdesc_ctrl_used (if index == tx_desc_count - 1 then txdesc_ctrl_wrap else 0);
      addr_hi = u32 (at / 2 ^ 32);
      unused = 0;
    }

-- The rings and the cursors as GemInitRings leaves them.
unfoldable pub initial_rings : Gem → Gem
initial_rings gem = record gem {
  rx = fill rx_desc_count (initial_rx gem) gem.rx;
  tx = fill tx_desc_count (initial_tx gem) gem.tx;
  tx_user = fill tx_desc_count (λ i. 0) gem.tx_user;
  null_rx = record {
    addr = bit_or rxdesc_addr_own rxdesc_addr_wrap;
    ctrl = 0;
    addr_hi = 0;
    unused = 0;
  };
  null_tx = record {
    addr = 0;
    ctrl = bit_or txdesc_ctrl_used txdesc_ctrl_wrap;
    addr_hi = 0;
    unused = 0;
  };
  rx_head = 0;
  tx_prod = 0;
  tx_cons = 0;
}

-- The priority queues from `queue` on that exist, parked on the null descriptors.
unfoldable pub park_queues : Gem → ℕ → ℕ → ℕ → M (Unit {0})
park_queues gem mask zero queue = pure tt
park_queues gem mask (suc n) queue =
    let rest = park_queues gem mask n (queue + 1) in
    let parked = do
      gem_write32 gem.gem_base (rx_qn_bar queue) (u32 gem.null_rx_desc)
      gem_write32 gem.gem_base (tx_qn_bar queue) (u32 gem.null_tx_desc)
      rest
    in if bit_and mask (2 ^ queue) == 0 then rest else parked

-- `GemSetMacAddress`
unfoldable pub set_mac_address : Gem → Mem → M (Unit {0})
set_mac_address gem mac = do
  gem_write32 gem.gem_base (spec_addr_low 0) (
      bit_or (bit_or (bit_or (u32 (mac 3 * 2 ^ 24)) (u32 (mac 2 * 2 ^ 16))) (u32 (mac 1 * 2 ^ 8)))
        (u32 (mac 0)))
  gem_write32 gem.gem_base (spec_addr_hi 0) (bit_or (u32 (mac 5 * 2 ^ 8)) (u32 (mac 4)))

-- UEFI's receive filter bits.
abbrev pub receive_unicast : ℕ
receive_unicast = 0x01

abbrev pub receive_multicast : ℕ
receive_multicast = 0x02

abbrev pub receive_broadcast : ℕ
receive_broadcast = 0x04

abbrev pub receive_promiscuous : ℕ
receive_promiscuous = 0x08

abbrev pub receive_promiscuous_multicast : ℕ
receive_promiscuous_multicast = 0x10

-- One of the bits is set.
abbrev pub has : ℕ → ℕ → Bool
has value bits = not (bit_and value bits == 0)

-- NET_CFG and the hash for a set of filters.
unfoldable pub filtered : ℕ → ℕ → ℕ × ℕ
filtered filters cfg =
    let clear = bit_and cfg (
      not32 (
        bit_or (bit_or (bit_or net_cfg_copy_all net_cfg_no_bcast) net_cfg_multi_hash_en)
          net_cfg_uni_hash_en)) in
    let bcast = if has filters receive_broadcast then clear else bit_or clear net_cfg_no_bcast in
    if has filters receive_promiscuous
    then (bit_or clear net_cfg_copy_all, 0)
    else if has filters (bit_or receive_multicast receive_promiscuous_multicast)
    then (bit_or bcast net_cfg_multi_hash_en, 0xffff_ffff)
    else (bcast, 0)

-- NET_CFG for a link.
unfoldable pub link_cfg : ℕ → Bool → ℕ → ℕ
link_cfg speed full_duplex cfg =
    let clear =
      bit_and cfg (not32 (bit_or (bit_or net_cfg_speed100 net_cfg_gige_en) net_cfg_full_duplex)) in
    let sped =
      if speed == 1000
      then bit_or clear net_cfg_gige_en
      else if speed == 100
      then bit_or clear net_cfg_speed100
      else clear in
    if full_duplex then bit_or sped net_cfg_full_duplex else sped

-- AMP with its pipeline depths.
unfoldable pub pipelined : ℕ → ℕ
pipelined amp =
    bit_or (bit_and amp (not32 (bit_or amp_ar2r_max_pipe_mask amp_aw2w_max_pipe_mask))) (
      bit_or (bit_or (8 * 2 ^ amp_ar2r_max_pipe_shift) (8 * 2 ^ amp_aw2w_max_pipe_shift))
        amp_aw2b_fill)

module _ (device : Device) where
  -- `GemInitRings`
  unfoldable pub init_rings : Gem → M Gem
  unfolding initial_rings
  init_rings gem = do
    gem_write32 gem.gem_base rx_qbar (u32 gem.rx_ring)
    gem_write32 gem.gem_base rx_qbar_hi (u32 (gem.rx_ring / 2 ^ 32))
    gem_write32 gem.gem_base tx_qbar (u32 gem.tx_ring)
    gem_write32 gem.gem_base tx_qbar_hi (u32 (gem.tx_ring / 2 ^ 32))
    design ← gem_read32 device gem.gem_base design_cfg6
    park_queues gem (bit_and design design_cfg6_prio_q_mask) 15 1
    pure (initial_rings gem)

  -- `GemSetReceiveFilters`
  unfoldable pub set_receive_filters : Gem → ℕ → M (Unit {0})
  unfolding filtered set_mac_address
  set_receive_filters gem filters = do
    cfg ← gem_read32 device gem.gem_base net_cfg
    gem_write32 gem.gem_base hash_bot (filtered filters cfg).1
    gem_write32 gem.gem_base hash_top (filtered filters cfg).1
    gem_write32 gem.gem_base net_cfg (filtered filters cfg).0
    (if has filters (bit_or receive_unicast receive_promiscuous)
        then set_mac_address gem gem.mode.current_address
        else gem_write32 gem.gem_base (spec_addr_low 0) 0
          >> gem_write32 gem.gem_base (spec_addr_hi 0) 0)

  -- `GemUpdateLinkSpeed`
  unfoldable pub update_link_speed : Gem → ℕ → Bool → M (Unit {0})
  update_link_speed gem speed full_duplex = do
    cfg ← gem_read32 device gem.gem_base net_cfg
    gem_write32 gem.gem_base net_cfg (link_cfg speed full_duplex cfg)

  -- `GemMacConfigure`
  unfoldable pub mac_configure : Gem → M Gem
  mac_configure gem = do
    amp_value ← gem_read32 device gem.gem_base amp
    gem_write32 gem.gem_base amp (pipelined amp_value)
    base ← net_cfg_base device gem
    gem_write32 gem.gem_base net_cfg (
        bit_or
          (bit_or
            (bit_or (bit_or (bit_or base net_cfg_fcs_remove) net_cfg_pause_en) net_cfg_1536rxen)
            net_cfg_full_duplex)
          net_cfg_gige_en)
    gem_write32 gem.gem_base dma_cfg (
        bit_or
          (bit_or
            (bit_or
              (bit_or (bit_or dma_cfg_addr_bus_64 dma_cfg_disc_when_no_ahb)
                (dma_cfg_rx_buf_size rx_buffer_size))
              dma_cfg_rx_pktbuf_full)
            dma_cfg_tx_pktbuf_full)
          dma_cfg_ahb_burst_len_16)
    gem' ← init_rings gem
    set_mac_address gem' gem'.mode.current_address
    set_receive_filters gem' gem'.mode.receive_filter_setting
    pure gem'

  -- `GemMacEnableTxRx`
  unfoldable pub mac_enable_tx_rx : Gem → M (Unit {0})
  mac_enable_tx_rx gem =
      or32 device (u64 (gem.gem_base + net_ctrl)) (bit_or net_ctrl_rx_en net_ctrl_tx_en)

  -- `GemMacDisableTxRx`
  unfoldable pub mac_disable_tx_rx : Gem → M (Unit {0})
  mac_disable_tx_rx gem =
      and32 device (u64 (gem.gem_base + net_ctrl)) (not32 (bit_or net_ctrl_rx_en net_ctrl_tx_en))
