-- ===== src/Gem/Rx.antt =====
-- The receive ring: GemRxPending, GemRecycleRxDescriptor and GemReceiveFrame of GemHw.c
-- (Silicon/Broadcom/Drivers/Net/Rp1GemDxe). The receive loop runs on fuel.
pub mod Queue
use rpi5_uefi_build.Common.{
  ℕ, zero, suc, ◌+◌, ◌*◌, ◌%◌, Bool, false, not, ◌||◌, Option, none, some, ltb, ◌==◌, if◌then◌else◌,
  u16, not32, bit_and, bit_or, Mem, BaseMemoryLib,
}
use rpi5_uefi_build.Common.Mmio.{Device, M, pure, ◌>>=◌, ◌>>◌}
use rpi5_uefi_build.Gem.{
  Gem, Desc, Status, success, not_ready, buffer_too_small, put, ether_header_size, rx_desc_count,
  rx_buffer_size,
}
use rpi5_uefi_build.Gem.Regs.{
  rxdesc_addr_own, rxdesc_ctrl_sof, rxdesc_ctrl_eof, rxdesc_ctrl_length_mask, rx_stat,
  rx_stat_frame_recd, rx_stat_buf_not_avail, rx_stat_overrun, gem_write32,
}

-- The OWN bit: the hardware has filled the descriptor.
unfoldable pub is_owned : Desc → Bool
is_owned d = not (bit_and d.addr rxdesc_addr_own == 0)

-- `GemRxPending`
unfoldable pub rx_pending : Gem → Bool
rx_pending gem = if gem.rx_ring == 0 then false else is_owned (gem.rx gem.rx_head)

-- The descriptor given back to the hardware.
abbrev pub emptied : Desc → Desc
emptied d = record d { ctrl = 0; addr = bit_and d.addr (not32 rxdesc_addr_own) }

-- `GemRecycleRxDescriptor`
abbrev pub recycle_rx_descriptor : Gem → ℕ → Gem
recycle_rx_descriptor gem index = record gem {
  rx = put gem.rx index (emptied (gem.rx index));
  rx_head = u16 ((index + 1) % rx_desc_count);
}

-- The length field of a control word.
abbrev pub frame_length : ℕ → ℕ
frame_length ctrl = bit_and ctrl rxdesc_ctrl_length_mask

-- A descriptor that does not hold one whole frame of a sensible length.
unfoldable pub is_bad : ℕ → Bool
is_bad ctrl =
    let ends = bit_or rxdesc_ctrl_sof rxdesc_ctrl_eof in
    not (bit_and ctrl ends == ends)
    || ltb (frame_length ctrl) ether_header_size
    || ltb rx_buffer_size (frame_length ctrl)

-- What GemReceiveFrame leaves: its result, the caller's buffer, *BufferSize and the private data.
pub record Received : Type 0 where
  pub status : Status
  pub buffer : Mem
  pub size : ℕ
  pub gem : Gem

module _ (lib : BaseMemoryLib) where
  -- The frame of a slot, copied out.
  abbrev pub copy_out : Gem → ℕ → ℕ → Mem → Mem
  copy_out gem index n buffer =
      lib.copy_mem buffer 0 (λ i. gem.rx_data (index * rx_buffer_size + i)) n

  -- Handing over the frame at the ring head.
  abbrev pub deliver : Gem → Mem → ℕ → M (Option Received)
  deliver gem buffer n = do
    gem_write32 gem.gem_base rx_stat
        (bit_or (bit_or rx_stat_frame_recd rx_stat_buf_not_avail) rx_stat_overrun)
    pure (
        some (record {
          status = success;
          buffer = copy_out gem gem.rx_head n buffer;
          size = n;
          gem = recycle_rx_descriptor gem gem.rx_head;
        }))

  -- `GemReceiveFrame`
  unfoldable pub receive_frame : ℕ → Gem → Mem → ℕ → M (Option Received)
  receive_frame zero gem buffer size = pure none
  receive_frame (suc fuel) gem buffer size =
      let d = gem.rx gem.rx_head in
      let n = frame_length d.ctrl in
      let rest = receive_frame fuel (recycle_rx_descriptor gem gem.rx_head) buffer size in
      if not (is_owned d)
      then pure (some (record { status = not_ready; buffer = buffer; size = size; gem = gem }))
      else if is_bad d.ctrl
      then rest
      else if ltb size n
      then pure (some (record { status = buffer_too_small; buffer = buffer; size = n; gem = gem }))
      else deliver gem buffer n
