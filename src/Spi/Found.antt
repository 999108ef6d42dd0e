-- ===== src/Spi/Found.antt =====
-- Bcm2712BootSpiReadImage of Bcm2712SpiFlash.c ends, as Search says.
use rpi5_uefi_build.Common.{ℕ, suc, ◌≡◌, ◌≢◌, ◌⊎◌, Bool, true, false, Option, none, some, Mem}
use rpi5_uefi_build.Common.Mmio.{Device, M, History, pure, ◌>>=◌}
use rpi5_uefi_build.Spi.{Status, success, timeout, device_error, BootSpi, Transfer}
use rpi5_uefi_build.Spi.Image.{
  Probe, exchange, judge, spi_probe_jedec, settle, attempt, attempts, read_flash,
}
use rpi5_uefi_build.Spi.Search.{
  Blank, Exchanged, Missed, Answered, Probes, saved, ready, other_encoding, Search,
}

module _ (device : Device) where
  -- An exchange ends, with what stands on the wire.
  Finished : BootSpi → Transfer → Mem → History → Type 0
  Finished spi t rx h =
      (s : Status) × (out : Mem) × (h' : History) × (exchange device spi t rx h
        ≡ (some (s, out), h'))
      × Exchanged device spi t rx h s out h'

  -- The judgement of an exchange.
  Judgement : (Mem → M (Option (Status × Mem))) → Status → Mem → History → Type 0
  Judgement next s id h =
      (((s ≢ success) ⊎ Blank id) × (judge device next (some (s, id)) h ≡ next id h))
      ⊎ ((s ≡ success)
          × (¬ Blank id)
          × (judge device next (some (s, id)) h ≡ (some (success, id), h)))

  -- What a try of the probe comes to.
  Try : BootSpi → ℕ → Mem → History → Type 0
  Try spi n id h =
      ((id' : Mem) × (h' : History) × Missed device spi id h id' h'
        × (spi_probe_jedec device spi (suc n) id h ≡ spi_probe_jedec device spi n id' h'))
      ⊎ ((id' : Mem) × (h' : History) × Answered device spi id h id' h'
          × (spi_probe_jedec device spi (suc n) id h ≡ (some (success, id'), h')))

  status_of : Bool → Status
  status_of true = success
  status_of false = device_error

  Probed : BootSpi → Mem → History → Type 0
  Probed spi id h =
      (ok : Bool) × (id' : Mem) × (h' : History) × Probes device spi id h ok id' h'
      × (spi_probe_jedec device spi 2 id h ≡ (some (status_of ok, id'), h'))

  -- An attempt behind its probe.
  Attempted : BootSpi → (Status → Mem → M (Option Probe)) → Mem → History → Type 0
  Attempted work next id h =
      (ok : Bool) × (id' : Mem) × (h' : History) × Probes device work id (ready device work h) ok
        id' h'
      × (attempt device work next id h
          ≡ settle device work (saved device work h) next (some (status_of ok, id')) h')

  Sought : BootSpi → History → Type 0
  Sought spi h =
      (ok : Bool) × (p : Probe) × (h' : History) × (attempts device spi (λ i. 0) h ≡ (some p, h'))
      × (p.status ≡ status_of ok)
      × Search device spi h ok p.work p.muxed p.id h'

  failed : BootSpi → Status → Mem → M (Option Probe)
  failed work status id =
      pure (some (record { status = status; id = id; work = work; muxed = none }))

  second : BootSpi → Status → Mem → M (Option Probe)
  second spi status id = attempt device (other_encoding spi) (failed (other_encoding spi)) id

  -- read_by, by a status in place of the probe's.
  by_status : Mem → ℕ → Probe → Status → M (Option (Status × Mem × Probe))
  by_status buffer len p s =
      let outcome : Option (Status × Mem) → Option (Status × Mem × Probe) =
        λ r. elim r [ none ↦ none | some o ↦ some (o.0, o.1, p) ] in
      let failed' = pure (some (device_error, buffer, p)) in
      elim s [
        | success ↦ read_flash device p buffer len >>= λ r. pure (outcome r)
        | timeout ↦ failed'
        | device_error ↦ failed'
      ]
