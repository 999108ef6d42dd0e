-- ===== src/Spi.antt =====
-- Platform/RaspberryPi/RPi5/Drivers/BootloaderConfigDxe/Bcm2712SpiFlash.c (under meta-rpi5-uefi/
-- recipes-bsp/edk2-platforms/files/edk2-platforms): reading the boot EEPROM over SPI. A transfer's loop
-- runs on fuel; the delay between two probes is left out.
pub mod Image
pub mod Wire
pub mod Xfer
pub mod Search
pub mod Found
pub mod Locate
pub mod Tests
use rpi5_uefi_build.Common.{
  ℕ, zero, suc, ◌+◌, ◌-◌, ◌*◌, ◌^◌, Bool, true, false, not, ◌&&◌, ◌||◌, Option, none, some, List,
  [], ◌∷◌, ltb, leb, ◌==◌, if◌then◌else◌, u8, u32, u64, not32, bit_and, bit_or, Mem, store,
}
use rpi5_uefi_build.Common.Mmio.{Device, M, pure, read32, write32, or32, and32, ◌>>=◌, ◌>>◌}

-- EFI_STATUS, the values that the file returns.
pub data Status : Type 0 where
  success timeout device_error : Status

-- BCM2712_BOOT_SPI
pub record BootSpi : Type 0 where
  pub spi_base : ℕ
  pub cs_bank_base : ℕ
  pub cs_mask : ℕ
  pub cs_pin : ℕ
  pub cs_active_low : Bool
  pub pinctrl_base : ℕ
  pub is_d0 : Bool

abbrev pub spi_reg_cs : ℕ
spi_reg_cs = 0x00

abbrev pub spi_reg_fifo : ℕ
spi_reg_fifo = 0x04

abbrev pub spi_reg_clk : ℕ
spi_reg_clk = 0x08

abbrev pub spi_cs_clear_tx : ℕ
spi_cs_clear_tx = 2 ^ 4

abbrev pub spi_cs_clear_rx : ℕ
spi_cs_clear_rx = 2 ^ 5

abbrev pub spi_cs_ta : ℕ
spi_cs_ta = 2 ^ 7

abbrev pub spi_cs_done : ℕ
spi_cs_done = 2 ^ 16

abbrev pub spi_cs_rxd : ℕ
spi_cs_rxd = 2 ^ 17

abbrev pub spi_cs_txd : ℕ
spi_cs_txd = 2 ^ 18

abbrev pub spi_clk_divider : ℕ
spi_clk_divider = 64

abbrev pub gio_reg_data : ℕ
gio_reg_data = 0x04

abbrev pub gio_reg_iodir : ℕ
gio_reg_iodir = 0x08

abbrev pub spi_stall_limit : ℕ
spi_stall_limit = 10_000_000

abbrev pub flash_cmd_rdid : ℕ
flash_cmd_rdid = 0x9f

abbrev pub flash_cmd_read : ℕ
flash_cmd_read = 0x03

-- mMuxC0 and mMuxD0: the shift of a pin's field and its function.
abbrev pub mux_c0 : List (ℕ × ℕ)
mux_c0 = (4, 0) ∷ (8, 6) ∷ (12, 5) ∷ (16, 6) ∷ []

abbrev pub mux_d0 : List (ℕ × ℕ)
mux_d0 = (0, 0) ∷ (4, 7) ∷ (8, 6) ∷ (12, 6) ∷ []

-- One field of the pin multiplexer.
abbrev pub set_field : ℕ × ℕ → ℕ → ℕ
set_field (shift, fsel) value =
    bit_or (bit_and value (not32 (0xf * 2 ^ shift))) (u32 (fsel * 2 ^ shift))

abbrev pub set_fields : List (ℕ × ℕ) → ℕ → ℕ
set_fields [] value = value
set_fields (field ∷ fields) value = set_fields fields (set_field field value)

-- The fields of a table; the chip select's, the first, only for the expected pin.
abbrev pub set_mux : ℕ → List (ℕ × ℕ) → ℕ → ℕ
set_mux cs_pin [] value = value
set_mux cs_pin (cs ∷ fields) value =
    set_fields fields (if not (cs_pin == 1) then value else set_field cs value)

-- The variables of SpiXfer's loop.
pub record Loop : Type 0 where
  pub sent : ℕ
  pub received : ℕ
  pub stall : ℕ
  pub rx : Mem

-- The addresses of the FIFO and of the control register.
abbrev pub fifo_address : BootSpi → ℕ
fifo_address spi = u64 (spi.spi_base + spi_reg_fifo)

abbrev pub cs_address : BootSpi → ℕ
cs_address spi = u64 (spi.spi_base + spi_reg_cs)

-- What a transfer sends, and of which length its two parts are.
pub record Transfer : Type 0 where
  pub tx : Mem
  pub tx_len : ℕ
  pub rx_len : ℕ

abbrev pub total : Transfer → ℕ
total t = t.tx_len + t.rx_len

-- Rounds that are enough for a transfer: each takes a byte or counts a stall.
abbrev pub enough : Transfer → ℕ
enough t = (total t + 1) * (spi_stall_limit + 1)

abbrev pub any_set : ℕ → ℕ → Bool
any_set value bits = not (bit_and value bits == 0)

module _ (device : Device) (spi : BootSpi) where
  -- `SpiMuxPins`
  unfoldable pub spi_mux_pins : M ℕ
  spi_mux_pins = do
    original ← read32 device spi.pinctrl_base
    let value = set_mux spi.cs_pin (if spi.is_d0 then mux_d0 else mux_c0) original
    let changed = write32 spi.pinctrl_base value >> pure original
    (if value == original then pure original else changed)

  -- `SpiCsSet`
  unfoldable pub spi_cs_set : Bool → M (Unit {0})
  spi_cs_set assert =
      let high = if assert then not spi.cs_active_low else spi.cs_active_low in
      if high
      then or32 device (u64 (spi.cs_bank_base + gio_reg_data)) spi.cs_mask
      else and32 device (u64 (spi.cs_bank_base + gio_reg_data)) (not32 spi.cs_mask)

  -- A byte into the FIFO, if it has room and one is left.
  abbrev pub feed : Transfer → Loop → ℕ → M Loop
  feed t l status =
      let sending = do
        write32 (fifo_address spi) (if ltb l.sent t.tx_len then t.tx l.sent else 0)
        pure (record l { sent = l.sent + 1 })
      in if any_set status spi_cs_txd && ltb l.sent (total t) then sending else pure l

  -- A byte out of the FIFO.
  abbrev pub capture : Transfer → Loop → M Loop
  capture t l = do
    value ← read32 device (fifo_address spi)
    let l' : Loop = record l { received = l.received + 1; stall = 0 }
    pure (
        if leb t.tx_len l.received
        then record l' { rx = store l.rx (l.received - t.tx_len) (u8 value) }
        else l')

  abbrev pub clear_fifos : M (Unit {0})
  clear_fifos = write32 (cs_address spi) (bit_or spi_cs_clear_rx spi_cs_clear_tx)

  -- Polls for the end of the transfer, so many at most.
  unfoldable pub wait_done : ℕ → M (Unit {0})
  wait_done zero = pure tt
  wait_done (suc n) =
      let rest = wait_done n in
      read32 device (cs_address spi) >>= λ status.
      if any_set status spi_cs_done then pure tt else rest

  abbrev pub ended : Loop → M (Option (Status × Mem))
  ended l = do wait_done (spi_stall_limit + 1); clear_fifos; pure (some (success, l.rx))

  abbrev pub stalled : Loop → M (Option (Status × Mem))
  stalled l = do clear_fifos; pure (some (timeout, l.rx))

  -- The loop of SpiXfer.
  unfoldable pub transfer : Transfer → ℕ → Loop → M (Option (Status × Mem))
  transfer t zero l = pure none
  transfer t (suc fuel) l =
      let round = do
        status ← read32 device (cs_address spi)
        l' ← feed t l status
        (if any_set status spi_cs_rxd
            then capture t l' >>= transfer t fuel
            else if ltb spi_stall_limit (l'.stall + 1)
            then stalled l'
            else transfer t fuel (record l' { stall = l'.stall + 1 }))
      in if ltb l.received (total t) then round else ended l

  -- `SpiXfer`
  unfoldable pub spi_xfer : Transfer → Mem → M (Option (Status × Mem))
  spi_xfer t rx = do
    write32 (cs_address spi) (bit_or (bit_or spi_cs_ta spi_cs_clear_rx) spi_cs_clear_tx)
    transfer t (enough t) (record { sent = 0; received = 0; stall = 0; rx = rx })

  -- `SpiIdle`
  unfoldable pub spi_idle : M (Unit {0})
  spi_idle = do
    spi_cs_set false
    and32 device (u64 (spi.cs_bank_base + gio_reg_iodir)) (not32 spi.cs_mask)
    clear_fifos
    write32 (u64 (spi.spi_base + spi_reg_clk)) spi_clk_divider
