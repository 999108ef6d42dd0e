-- ===== src/Gem/Snp/Traffic.antt =====
-- GetStatus, Transmit, Receive and the WaitForPacket notification of Snp.c (Silicon/Broadcom/Drivers/
-- Net/Rp1GemDxe). Whether EfiAcquireLockOrFail gets the lock is an argument.
use rpi5_uefi_build.Common.{
  ℕ, zero, suc, ◌+◌, ◌*◌, ◌/◌, ◌^◌, Bool, true, false, not, Option, none, some, ltb, ◌==◌,
  if◌then◌else◌, u8, u16, bit_and, bit_or, Mem, store, BaseMemoryLib,
}
use rpi5_uefi_build.Common.Mmio.{Device, M, pure, ◌>>=◌}
use rpi5_uefi_build.Gem.{
  Gem, Status, success, access_denied, invalid_parameter, buffer_too_small, not_ready,
  ether_addr_len, max_frame_size, rx_desc_count,
}
use rpi5_uefi_build.Gem.Tx.{transmit_frame, tx_pending_completion, get_recycled_tx_buffer}
use rpi5_uefi_build.Gem.Rx.{receive_frame, rx_pending, Received}
use rpi5_uefi_build.Gem.Phy.{phy_update_config}
use rpi5_uefi_build.Gem.Snp.{when_initialized, set_media, mac_address_size}

-- GEM_LINK_TIMEOUT_MS / 10
abbrev pub link_tries : ℕ
link_tries = 5000 / 10

-- The interrupt bits of UEFI.
abbrev pub receive_interrupt : ℕ
receive_interrupt = 0x01

abbrev pub transmit_interrupt : ℕ
transmit_interrupt = 0x02

abbrev pub is_success : Status → Bool
is_success success = true
is_success s = false

-- What GetStatus leaves; the outputs that were asked for.
pub record StatusReply : Type 0 where
  pub status : Status
  pub interrupts : Option ℕ
  pub tx_buf : Option ℕ
  pub gem : Gem

abbrev pub pending_interrupts : Gem → ℕ
pending_interrupts gem =
    bit_or (if rx_pending gem then receive_interrupt else 0)
      (if tx_pending_completion gem then transmit_interrupt else 0)

-- The recycled buffer, if the caller asks for it.
abbrev pub recycle_if : Bool → Gem → M (Option ℕ × Gem)
recycle_if true gem = do (buffer, gem') ← get_recycled_tx_buffer gem; pure (some buffer, gem')
recycle_if false gem = pure (none, gem)

-- The link is up within so many polls.
unfoldable pub wait_link : Device → ℕ → Gem → M (Bool × Gem)
wait_link device zero gem = pure (false, gem)
wait_link device (suc n) gem = do
  (status, gem') ← phy_update_config device gem
  (let rest = wait_link device n gem' in if is_success status then pure (true, gem') else rest)

-- The frame's header as the caller gives it: destination, source or the station address, type.
abbrev pub put_header : BaseMemoryLib → Gem → Mem → Mem → Option Mem → ℕ → Mem
put_header lib gem frame dest src protocol =
    let from : Mem = elim src [ some a ↦ a | none ↦ gem.mode.current_address ] in
    let addressed =
      lib.copy_mem (lib.copy_mem frame 0 dest ether_addr_len) ether_addr_len from ether_addr_len in
    store (store addressed 12 (u8 (bit_and (protocol / 2 ^ 8) 0xff))) 13
      (u8 (bit_and protocol 0xff))

-- The frame with the header that HeaderSize asks for, or the parameters' error.
abbrev pub headed : BaseMemoryLib → Gem → Mem → ℕ → Option Mem → Option Mem → Option ℕ → Option Mem
headed lib gem frame header_size src none protocol = if header_size == 0 then some frame else none
headed lib gem frame header_size src (some dest) none =
    if header_size == 0 then some frame else none
headed lib gem frame header_size src (some dest) (some protocol) =
    if header_size == 0
    then some frame
    else if not (header_size == gem.mode.media_header_size)
    then none
    else some (put_header lib gem frame dest src protocol)

-- What Transmit leaves: its status, the caller's buffer and the private data.
pub record Sent : Type 0 where
  pub status : Status
  pub frame : Mem
  pub gem : Gem

module _ (lib : BaseMemoryLib) (device : Device) where
  -- `Rp1GemSnpGetStatus`
  unfoldable pub snp_get_status : Bool → Bool → Bool → Gem → M StatusReply
  snp_get_status lock want_interrupts want_buffer gem =
      let failed : Status → StatusReply =
        λ e. record { status = e; interrupts = none; tx_buf = none; gem = gem } in
      let locked = do
        (link, linked) ← phy_update_config device gem
        (buffer, gem') ← recycle_if want_buffer (set_media linked (is_success link))
        pure (record {
          status = success;
          interrupts = if want_interrupts then some (pending_interrupts gem') else none;
          tx_buf = buffer;
          gem = gem';
        })
      in when_initialized gem.mode.state (λ e. pure (failed e))
        (if lock then locked else pure (failed access_denied))

  -- The link, waited for unless it is known to be up.
  abbrev pub ensure_link : Gem → M (Bool × Gem)
  ensure_link gem =
      let waited = do
        (up, gem') ← wait_link device link_tries gem
        pure (up, if up then set_media gem' true else gem')
      in if gem.mode.media_present then pure (true, gem) else waited

  -- Transmit behind its checks, with the frame that is to leave.
  abbrev pub send : Bool → Gem → ℕ → Mem → Mem → ℕ → M Sent
  send lock gem address original frame size = do
    (up, gem') ← ensure_link gem
    (let sent = do
      (status, gem'') ← transmit_frame lib device gem' address frame size
      pure (record { status = status; frame = frame; gem = gem'' })
      in if not up
        then pure (record { status = not_ready; frame = original; gem = gem' })
        else if not lock
        then pure (record { status = access_denied; frame = frame; gem = gem' })
        else sent)

  -- The checks of Transmit on the sizes.
  abbrev pub checked : Bool → Gem → ℕ → Mem → ℕ → Option Mem → M Sent
  checked lock gem address frame size none =
      pure (record { status = invalid_parameter; frame = frame; gem = gem })
  checked lock gem address frame size (some whole) =
      let sent = send lock gem address frame whole size in
      if ltb size gem.mode.media_header_size
      then pure (record { status = buffer_too_small; frame = frame; gem = gem })
      else if ltb max_frame_size size
      then pure (record { status = invalid_parameter; frame = frame; gem = gem })
      else sent

  -- `Rp1GemSnpTransmit`; the caller's buffer is its address, 0 for NULL, and its bytes.
  unfoldable pub snp_transmit :
      Bool → Gem → ℕ → ℕ → ℕ → Mem → Option Mem → Option Mem → Option ℕ → M Sent
  snp_transmit lock gem header_size size address frame src dest protocol =
      let failed : Status → Sent = λ e. record { status = e; frame = frame; gem = gem } in
      if address == 0
      then pure (failed invalid_parameter)
      else when_initialized gem.mode.state (λ e. pure (failed e))
          (checked lock gem address frame size (headed lib gem frame header_size src dest protocol))

-- What Receive leaves: the outputs that were asked for.
pub record Delivered : Type 0 where
  pub status : Status
  pub size : ℕ
  pub buffer : Mem
  pub header_size : Option ℕ
  pub src : Option Mem
  pub dest : Option Mem
  pub protocol : Option ℕ
  pub gem : Gem

-- An output of Receive: the frame's address at an offset, in a zeroed EFI_MAC_ADDRESS.
abbrev pub address_at : BaseMemoryLib → Mem → ℕ → Option Mem → Option Mem
address_at lib frame offset none = none
address_at lib frame offset (some out) =
    some (
      lib.copy_mem (lib.set_mem out 0 mac_address_size 0) 0 (λ i. frame (offset + i))
        ether_addr_len)

abbrev pub when_asked {ℓ} : {A : Type ℓ} → Bool → A → Option A
when_asked true a = some a
when_asked false a = none

-- The caller's pointers: which are not NULL, and what the address outputs held.
pub record Outputs : Type 0 where
  pub header_size : Bool
  pub src : Option Mem
  pub dest : Option Mem
  pub protocol : Bool

abbrev pub untouched : Status → Outputs → ℕ → Mem → Gem → Delivered
untouched e out size buffer gem = record {
  status = e;
  size = size;
  buffer = buffer;
  header_size = none;
  src = out.src;
  dest = out.dest;
  protocol = none;
  gem = gem;
}

-- Receive behind GemReceiveFrame.
abbrev pub parsed : BaseMemoryLib → Outputs → Received → Delivered
parsed lib out r =
    let whole : Delivered = record {
      status = success;
      size = r.size;
      buffer = r.buffer;
      header_size = when_asked out.header_size r.gem.mode.media_header_size;
      src = address_at lib r.buffer ether_addr_len out.src;
      dest = address_at lib r.buffer 0 out.dest;
      protocol = when_asked out.protocol (u16 (bit_or (r.buffer 12 * 2 ^ 8) (r.buffer 13)));
      gem = r.gem;
    } in
    if is_success r.status then whole else untouched r.status out r.size r.buffer r.gem

module _ (lib : BaseMemoryLib) (device : Device) where
  abbrev pub parse_some : Outputs → Option Received → Option Delivered
  parse_some out none = none
  parse_some out (some r) = some (parsed lib out r)

  -- `Rp1GemSnpReceive`; the caller's buffer is its bytes, `none` for NULL. The result is `none` if the
  -- fuel for the receive loop runs out.
  unfoldable pub snp_receive : Bool → Gem → Outputs → ℕ → Option Mem → M (Option Delivered)
  snp_receive lock gem out size none =
      pure (some (untouched invalid_parameter out size (λ i. 0) gem))
  snp_receive lock gem out size (some buffer) =
      let received = do
        r ← receive_frame lib (suc rx_desc_count) gem buffer size
        pure (parse_some out r)
      in when_initialized gem.mode.state (λ e. pure (some (untouched e out size buffer gem)))
        (if lock then received else pure (some (untouched access_denied out size buffer gem)))

-- `Rp1GemWaitForPacketNotify`: whether it signals the event.
unfoldable pub wait_for_packet_notify : Option Gem → Bool
wait_for_packet_notify none = false
wait_for_packet_notify (some gem) = when_initialized gem.mode.state (λ e. false) (rx_pending gem)
