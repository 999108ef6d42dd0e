-- ===== src/Spi/Image.antt =====
-- SpiProbeJedec and Bcm2712BootSpiReadImage of Bcm2712SpiFlash.c (Platform/RaspberryPi/RPi5/Drivers/
-- BootloaderConfigDxe). A result is `none` if a transfer's fuel runs out.
use rpi5_uefi_build.Common.{
  ℕ, zero, suc, Bool, true, false, not, ◌&&◌, Option, none, some, ◌==◌, if◌then◌else◌, Mem, store,
}
use rpi5_uefi_build.Common.Mmio.{Device, M, pure, write32, ◌>>=◌, ◌>>◌}
use rpi5_uefi_build.Spi.{
  Status, success, timeout, device_error, BootSpi, Transfer, flash_cmd_rdid, flash_cmd_read,
  spi_mux_pins, spi_cs_set, spi_xfer, spi_idle,
}

-- The first three bytes.
abbrev pub all_three : Mem → ℕ → Bool
all_three id byte = (id 0 == byte) && (id 1 == byte) && (id 2 == byte)

-- The outcome of the attempts: what the probe saw, the encoding in force, and the multiplexer's value to
-- restore if the pins are still re-muxed.
pub record Probe : Type 0 where
  pub status : Status
  pub id : Mem
  pub work : BootSpi
  pub muxed : Option ℕ

module _ (device : Device) where
  -- An exchange under the chip select.
  unfoldable pub exchange : BootSpi → Transfer → Mem → M (Option (Status × Mem))
  exchange spi t rx = do
    spi_cs_set device spi true
    r ← spi_xfer device spi t rx
    spi_cs_set device spi false
    pure r

  -- Whether an exchange found a chip; else the next try.
  abbrev pub judge :
      (Mem → M (Option (Status × Mem))) → Option (Status × Mem) → M (Option (Status × Mem))
  judge again none = pure none
  judge again (some (success, id)) =
      let next = again id in
      if not (all_three id 0x00) && not (all_three id 0xff) then pure (some (success, id)) else next
  judge again (some (status, id)) = again id

  -- `SpiProbeJedec`, with the tries left and the bytes of the last one.
  unfoldable pub spi_probe_jedec : BootSpi → ℕ → Mem → M (Option (Status × Mem))
  spi_probe_jedec spi zero id = pure (some (device_error, id))
  spi_probe_jedec spi (suc n) id =
      let command : Transfer = record { tx = λ i. flash_cmd_rdid; tx_len = 1; rx_len = 3 } in
      exchange spi command (store (store (store id 0 0) 1 0) 2 0) >>= judge (spi_probe_jedec spi n)

  -- The pins, re-muxed if there is a multiplexer.
  abbrev pub mux_if : BootSpi → M (Option ℕ)
  mux_if work = do
    let muxed = do saved ← spi_mux_pins device work; pure (some saved)
    (if not (work.pinctrl_base == 0) then muxed else pure none)

  -- An attempt behind its probe: the end, or the pins handed back and the next attempt.
  abbrev pub settle :
      BootSpi
      → Option ℕ
      → (Status → Mem → M (Option Probe))
      → Option (Status × Mem)
      → M (Option Probe)
  settle work saved next none = pure none
  settle work saved next (some (success, id)) =
      pure (some (record { status = success; id = id; work = work; muxed = saved }))
  settle work (some value) next (some (status, id)) =
      write32 work.pinctrl_base value >> next status id
  settle work none next (some (status, id)) =
      pure (some (record { status = status; id = id; work = work; muxed = none }))

  -- One round of the loop over the two encodings.
  unfoldable pub attempt : BootSpi → (Status → Mem → M (Option Probe)) → Mem → M (Option Probe)
  attempt work next id = do
    saved ← mux_if work
    spi_idle device work
    r ← spi_probe_jedec work 2 id
    settle work saved next r

  -- The loop: the encoding that the device tree names, then the other.
  abbrev pub attempts : BootSpi → Mem → M (Option Probe)
  attempts spi id =
      let other : BootSpi = record spi { is_d0 = not spi.is_d0 } in
      let failed : Status → Mem → M (Option Probe) = λ status id'.
        pure (some (record { status = status; id = id'; work = other; muxed = none })) in
      attempt spi (λ status id'. attempt other failed id') id

  -- MmioWrite32 (Work.PinctrlBase, SavedMux), if the pins are re-muxed.
  abbrev pub restore : BootSpi → Option ℕ → M (Unit {0})
  restore work none = pure tt
  restore work (some value) = write32 work.pinctrl_base value

  -- Reading the flash from its start.
  abbrev pub read_flash : Probe → Mem → ℕ → M (Option (Status × Mem))
  read_flash probe buffer len = do
    let command : Transfer = record {
      tx = λ i. if i == 0 then flash_cmd_read else 0;
      tx_len = 4;
      rx_len = len;
    }
    r ← exchange probe.work command buffer
    restore probe.work probe.muxed
    pure r

  abbrev pub read_by : Mem → ℕ → Option Probe → M (Option (Status × Mem × Probe))
  read_by buffer len none = pure none
  read_by buffer len (some probe) =
      let outcome : Option (Status × Mem) → Option (Status × Mem × Probe) =
        λ r. elim r [ none ↦ none | some o ↦ some (o.0, o.1, probe) ] in
      let failed = pure (some (device_error, buffer, probe)) in
      elim probe.status [
        | success ↦ read_flash probe buffer len >>= λ r. pure (outcome r)
        | timeout ↦ failed
        | device_error ↦ failed
      ]

  -- `Bcm2712BootSpiReadImage`; the probe stands for *Result.
  unfoldable pub read_image : BootSpi → Mem → ℕ → M (Option (Status × Mem × Probe))
  read_image spi buffer len = attempts spi (λ i. 0) >>= read_by buffer len
