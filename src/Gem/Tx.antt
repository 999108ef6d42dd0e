-- ===== src/Gem/Tx.antt =====
-- The transmit ring: GemTransmitFrame, GemTxPendingCompletion and GemGetRecycledTxBuffer of GemHw.c
-- (Silicon/Broadcom/Drivers/Net/Rp1GemDxe), and what the hardware does to a descriptor.
pub mod Fifo
pub mod Refine
pub mod Runs
use rpi5_uefi_build.Common.{
  ℕ, ◌+◌, ◌-◌, ◌*◌, ◌%◌, ◌^◌, Bool, false, not, ◌||◌, ltb, leb, ◌==◌, if◌then◌else◌, u16, u32, u64,
  bit_and, bit_or, Mem, BaseMemoryLib,
}
use rpi5_uefi_build.Common.Mmio.{Device, M, pure, or32, ◌>>=◌, ◌>>◌}
use rpi5_uefi_build.Gem.{Gem, Desc, Status, success, not_ready, put, tx_desc_count, tx_buffer_size}
use rpi5_uefi_build.Gem.Regs.{
  net_ctrl, net_ctrl_start_tx, tx_stat, tx_stat_complete, tx_stat_underrun, tx_stat_used_bit_read,
  txdesc_ctrl_used, txdesc_ctrl_wrap, txdesc_ctrl_last_buf, txdesc_ctrl_length_mask, gem_write32,
}

-- TxProd - TxCons, on UINT16.
abbrev pub in_flight : Gem → ℕ
in_flight gem = u16 (gem.tx_prod + 2 ^ 16 - gem.tx_cons)

-- The slot that a free-running counter is at.
abbrev pub slot : ℕ → ℕ
slot counter = counter % tx_desc_count

-- The control word of a frame: it leaves the USED bit clear.
unfoldable pub tx_ctrl : ℕ → ℕ → ℕ
tx_ctrl index length =
    let ctrl = bit_or (u32 (bit_and length txdesc_ctrl_length_mask)) txdesc_ctrl_last_buf in
    if index == tx_desc_count - 1 then bit_or ctrl txdesc_ctrl_wrap else ctrl

-- Ctrl of a descriptor.
abbrev pub set_ctrl : (ℕ → Desc) → ℕ → ℕ → ℕ → Desc
set_ctrl ring index ctrl = put ring index (record (ring index) { ctrl = ctrl })

-- The USED bit.
unfoldable pub is_used : Desc → Bool
is_used d = not (bit_and d.ctrl txdesc_ctrl_used == 0)

module _ (lib : BaseMemoryLib) where
  -- The private data after a frame has been queued.
  abbrev pub queued : Gem → ℕ → Mem → ℕ → Gem
  queued gem user_buffer frame length =
      let index = slot gem.tx_prod in
      record gem {
        tx_data = lib.copy_mem gem.tx_data (index * tx_buffer_size) frame length;
        tx = set_ctrl gem.tx index (tx_ctrl index length);
        tx_user = put gem.tx_user index user_buffer;
        tx_prod = u16 (gem.tx_prod + 1);
      }

  -- `GemTransmitFrame`; the caller's buffer is its address and its bytes.
  unfoldable pub transmit_frame : Device → Gem → ℕ → Mem → ℕ → M (Status × Gem)
  transmit_frame device gem user_buffer frame length =
      let sent = do
        or32 device (u64 (gem.gem_base + net_ctrl)) net_ctrl_start_tx
        pure (success, queued gem user_buffer frame length)
      in if leb tx_desc_count (in_flight gem) then pure (not_ready, gem) else sent

-- `GemTxPendingCompletion`
unfoldable pub tx_pending_completion : Gem → Bool
unfolding is_used
tx_pending_completion gem =
    if gem.tx_ring == 0 || gem.tx_cons == gem.tx_prod
    then false
    else is_used (gem.tx (slot gem.tx_cons))

-- The private data after a slot has been given up.
abbrev pub reclaimed : Gem → Gem
reclaimed gem = record gem {
  tx_user = put gem.tx_user (slot gem.tx_cons) 0;
  tx_cons = u16 (gem.tx_cons + 1);
}

-- `GemGetRecycledTxBuffer`: the buffer or NULL.
unfoldable pub get_recycled_tx_buffer : Gem → M (ℕ × Gem)
get_recycled_tx_buffer gem =
    let given = do
      gem_write32 gem.gem_base tx_stat
          (bit_or (bit_or tx_stat_complete tx_stat_underrun) tx_stat_used_bit_read)
      pure (gem.tx_user (slot gem.tx_cons), reclaimed gem)
    in if gem.tx_cons == gem.tx_prod
      then pure (0, gem)
      else if not (is_used (gem.tx (slot gem.tx_cons)))
      then pure (0, gem)
      else given
