-- ===== src/Spi/Search.antt =====
-- What Bcm2712BootSpiReadImage of Bcm2712SpiFlash.c does, transfer by transfer: how it looks for the
-- chip, and what it reads from it.
use rpi5_uefi_build.Common.{
  ℕ, ◌≡◌, ◌≢◌, ◌⊎◌, Bool, true, false, not, Option, none, some, ◌∷◌, Mem, store, ◌==◌,
  if◌then◌else◌,
}
use rpi5_uefi_build.Common.Mmio.{Device, History, wr}
use rpi5_uefi_build.Spi.{
  Status, success, device_error, BootSpi, Transfer, spi_cs_set, spi_idle, spi_xfer,
}
use rpi5_uefi_build.Spi.Image.{Probe, mux_if}
use rpi5_uefi_build.Spi.Wire.{XferEnds}

-- The first three bytes are all zero or all 0xFF.
abbrev pub Blank : Mem → Type 0
Blank id = ((id 0 ≡ 0) × (id 1 ≡ 0) × (id 2 ≡ 0)) ⊎ ((id 0 ≡ 0xff) × (id 1 ≡ 0xff) × (id 2 ≡ 0xff))

-- RDID with three bytes of answer, and READ from address 0 on.
abbrev pub read_id : Transfer
read_id = record { tx = λ i. 0x9f; tx_len = 1; rx_len = 3 }

abbrev pub read_from_start : ℕ → Transfer
read_from_start len = record { tx = λ i. if i == 0 then 0x03 else 0; tx_len = 4; rx_len = len }

-- Three bytes zeroed.
abbrev pub zeroed : Mem → Mem
zeroed id = store (store (store id 0 0) 1 0) 2 0

abbrev pub other_encoding : BootSpi → BootSpi
other_encoding spi = record spi { is_d0 = not spi.is_d0 }

-- The multiplexer has its value back.
abbrev pub handed_back : BootSpi → Option ℕ → History → History
handed_back spi none h = h
handed_back spi (some value) h = wr spi.pinctrl_base value ∷ h

module _ (device : Device) where
  -- One transfer with the chip selected, and what it ends with.
  pub record Exchanged (spi : BootSpi) (t : Transfer) (rx : Mem) (h : History) (s : Status)
      (out : Mem) (h' : History) : Type 0 where
    pub last : History
    pub on_wire : XferEnds spi t (spi_cs_set device spi true h).1 (some (s, out)) last
    pub deselected : h' ≡ (spi_cs_set device spi false last).1
    pub computed : spi_xfer device spi t rx (spi_cs_set device spi true h).1 ≡ (some (s, out), last)

  -- An RDID that no chip answers.
  abbrev pub Missed : BootSpi → Mem → History → Mem → History → Type 0
  Missed spi id h id' h' =
      (s : Status) × Exchanged spi read_id (zeroed id) h s id' h' × ((s ≢ success) ⊎ Blank id')

  -- An RDID that a chip answers.
  abbrev pub Answered : BootSpi → Mem → History → Mem → History → Type 0
  Answered spi id h id' h' = Exchanged spi read_id (zeroed id) h success id' h' × ¬ Blank id'

  -- The probe: at most two RDIDs, up to the first that is answered.
  pub data Probes (spi : BootSpi) (id : Mem) (h : History) : Bool → Mem → History → Type 0 where
    at_once : (id' : Mem) (h' : History) → Answered spi id h id' h' → Probes spi id h true id' h'
    again :
        (id1 id' : Mem) (h1 h' : History)
        → Missed spi id h id1 h1
        → Answered spi id1 h1 id' h'
        → Probes spi id h true id' h'
    never :
        (id1 id' : Mem) (h1 h' : History)
        → Missed spi id h id1 h1
        → Missed spi id1 h1 id' h'
        → Probes spi id h false id' h'

  -- With the pins muxed, if there is a multiplexer, and the controller idle.
  abbrev pub saved : BootSpi → History → Option ℕ
  saved spi h = (mux_if device spi h).0

  abbrev pub ready : BootSpi → History → History
  ready spi h = (spi_idle device spi (mux_if device spi h).1).1

  -- The search: with the encoding named, then, if there is a multiplexer, with the other.
  pub data Search (spi : BootSpi) (h : History)
      : Bool → BootSpi → Option ℕ → Mem → History → Type 0 where
    named :
        (id : Mem) (h' : History)
        → Probes spi (λ i. 0) (ready spi h) true id h'
        → Search spi h true spi (saved spi h) id h'
    only :
        (id : Mem) (h' : History)
        → saved spi h ≡ none
        → Probes spi (λ i. 0) (ready spi h) false id h'
        → Search spi h false spi none id h'
    other :
        (value : ℕ) (id1 id : Mem) (h1 h' : History)
        → saved spi h ≡ some value
        → Probes spi (λ i. 0) (ready spi h) false id1 h1
        → (let back = handed_back spi (some value) h1 in
            Probes (other_encoding spi) id1 (ready (other_encoding spi) back) true id h')
        → Search spi h true
            (other_encoding spi)
            (saved (other_encoding spi) (handed_back spi (some value) h1))
            id
            h'
    neither :
        (value : ℕ) (id1 id : Mem) (h1 h' : History)
        → saved spi h ≡ some value
        → Probes spi (λ i. 0) (ready spi h) false id1 h1
        → (let back = handed_back spi (some value) h1 in
            Probes (other_encoding spi) id1 (ready (other_encoding spi) back) false id h')
        → Search spi h false (other_encoding spi) none id (
            handed_back
              (other_encoding spi)
              (saved (other_encoding spi) (handed_back spi (some value) h1))
              h')

  -- The read: without a chip an error and the buffer as it was; with one the READ of the whole length
  -- with the encoding that was answered, its status, and the pins handed back.
  pub data ReadEnds (spi : BootSpi) (buffer : Mem) (len : ℕ) (h : History)
      : Option (Status × Mem × Probe) → History → Type 0 where
    not_found :
        (p : Probe) (h' : History)
        → p.status ≢ success
        → Search spi h false p.work none p.id h'
        → ReadEnds spi buffer len h (some (device_error, buffer, p)) h'
    found :
        (p : Probe) (s : Status) (out : Mem) (h1 h2 : History)
        → p.status ≡ success
        → Search spi h true p.work p.muxed p.id h1
        → Exchanged p.work (read_from_start len) buffer h1 s out h2
        → ReadEnds spi buffer len h (some (s, out, p)) (handed_back p.work p.muxed h2)
