-- ===== src/Spi/Xfer.antt =====
-- The loop of SpiXfer (Bcm2712SpiFlash.c): it ends within its fuel, and with the answer.
use rpi5_uefi_build.Common.{
  ℕ, zero, suc, ◌+◌, ◌-◌, ◌*◌, ◌<◌, ◌≤◌, ◌≡◌, ◌≢◌, refl, sym, ap, ◌∙◌, inl, inr, Bool, true, false,
  ◌&&◌, Option, [], ◌∷◌, ◌++◌, length, length-append, get_or, get_or-before, get_or-last, ltb, leb,
  ◌==◌, ==_ne, if◌then◌else◌, Bool-cases, arith, u8, u32, Mem, store,
}
use rpi5_uefi_build.Common.Mmio.{Device, M, History, rd, wr}
use rpi5_uefi_build.Spi.{
  Status, success, timeout, BootSpi, Loop, Transfer, total, any_set, feed, capture, fifo_address,
  cs_address, wait_done, transfer, enough, spi_xfer, spi_stall_limit, spi_cs_rxd, spi_cs_txd,
  spi_cs_done,
}
use rpi5_uefi_build.Spi.Wire.{
  reads, writes, byte_out, OnWire, XferEnds, one_more, fresh, fresh-OnWire,
}

module _ (device : Device) (spi : BootSpi) (t : Transfer) (start : History)
    (apart : cs_address spi ≢ fifo_address spi) where
  -- A poll of the control register changes nothing of that.
  polled :
      (h : History) (l : Loop) (n : ℕ)
      → OnWire spi t start h l
      → OnWire spi t start (rd (cs_address spi) n ∷ h) l
  polled h l n o = record {
    taken = o.taken;
    given = o.given;
    reads_so_far = rw (==_ne (cs_address spi) (fifo_address spi) apart) o.reads_so_far;
    writes_so_far = o.writes_so_far;
    received_all = o.received_all;
    sent_all = o.sent_all;
    sent_bound = o.sent_bound;
    captured = o.captured;
    as_command = o.as_command;
  }

  cleared :
      (h : History) (l : Loop) (n : ℕ)
      → OnWire spi t start h l
      → OnWire spi t start (wr (cs_address spi) n ∷ h) l
  cleared h l n o = record {
    taken = o.taken;
    given = o.given;
    reads_so_far = o.reads_so_far;
    writes_so_far = rw (==_ne (cs_address spi) (fifo_address spi) apart) o.writes_so_far;
    received_all = o.received_all;
    sent_all = o.sent_all;
    sent_bound = o.sent_bound;
    captured = o.captured;
    as_command = o.as_command;
  }

  -- The stall counter is not on the wire.
  patience :
      (h : History) (l : Loop) (n : ℕ)
      → OnWire spi t start h l
      → OnWire spi t start h (record l { stall = n })
  patience h l n o = record {
    taken = o.taken;
    given = o.given;
    reads_so_far = o.reads_so_far;
    writes_so_far = o.writes_so_far;
    received_all = o.received_all;
    sent_all = o.sent_all;
    sent_bound = o.sent_bound;
    captured = o.captured;
    as_command = o.as_command;
  }

  -- One of two runs.
  if_wire :
      {h : History} (b : Bool) (m k : M Loop)
      → (b ≡ true → OnWire spi t start (m h).1 (m h).0)
      → (b ≡ false → OnWire spi t start (k h).1 (k h).0)
      → OnWire spi t start ((if b then m else k) h).1 ((if b then m else k) h).0
  if_wire true m k p q = p refl
  if_wire false m k p q = q refl

  if_unit :
      {h : History} (l : Loop) (b : Bool) (m k : M (Unit {0}))
      → (b ≡ true → OnWire spi t start (m h).1 l)
      → (b ≡ false → OnWire spi t start (k h).1 l)
      → OnWire spi t start ((if b then m else k) h).1 l
  if_unit l true m k p q = p refl
  if_unit l false m k p q = q refl

  fed_one :
      (h : History) (l : Loop)
      → l.sent < total t
      → OnWire spi t start h l
      → OnWire spi t start
          (wr (fifo_address spi) (byte_out t l.sent) ∷ h)
          (record l { sent = l.sent + 1 })
  fed_one h l room o =
      let v = byte_out t l.sent in
      record {
        taken = o.taken;
        given = o.given ++ v ∷ [];
        reads_so_far = o.reads_so_far;
        writes_so_far =
            one_more (fifo_address spi) v (writes (fifo_address spi) h)
              (writes (fifo_address spi) start) o.given o.writes_so_far;
        received_all = o.received_all;
        sent_all = omega (arith, length-append o.given (v ∷ []), o.sent_all);
        sent_bound = omega arith;
        captured = o.captured;
        as_command = λ i less. elim (Bool-cases (i == l.sent)) [
          | inl last ↦
              let e : i ≡ length o.given = ground (arith, o.sent_all) in
              rw e (get_or-last o.given v 0 ∙ ap (byte_out t) (sym o.sent_all))
          | inr before ↦
              get_or-before o.given (v ∷ []) i 0 (ground (arith, o.sent_all))
              ∙ o.as_command i (ground arith)
        ];
      }

  fed :
      (h : History) (l : Loop) (status : ℕ)
      → OnWire spi t start h l
      → OnWire spi t start (feed device spi t l status h).1 (feed device spi t l status h).0
  fed h l status o =
      if_wire (any_set status spi_cs_txd && ltb l.sent (total t)) _ _
        (λ e. fed_one h l (ground arith) o) (λ e. o)

  taken_one :
      (h : History) (l : Loop)
      → OnWire spi t start h l
      → OnWire spi t start (capture device spi t l h).1 (capture device spi t l h).0
  taken_one h l o =
      let v = u32 (device.reply h (fifo_address spi)) in
      let record_with : (rx : Mem)
          → ((j : ℕ)
              → t.tx_len + j < l.received + 1
              → rx j ≡ u8 (get_or (o.taken ++ v ∷ []) (t.tx_len + j) 0))
          → OnWire spi t start (rd (fifo_address spi) v ∷ h)
              (record l { received = l.received + 1; stall = 0; rx = rx }) =
        λ rx all. record {
          taken = o.taken ++ v ∷ [];
          given = o.given;
          reads_so_far =
              one_more (fifo_address spi) v (reads (fifo_address spi) h)
                (reads (fifo_address spi) start) o.taken o.reads_so_far;
          writes_so_far = o.writes_so_far;
          received_all = omega (arith, length-append o.taken (v ∷ []), o.received_all);
          sent_all = o.sent_all;
          sent_bound = o.sent_bound;
          captured = all;
          as_command = o.as_command;
        } in
      elim (Bool-cases (leb t.tx_len l.received)) [
        | inl answer ↦ rw answer (
            record_with (store l.rx (l.received - t.tx_len) (u8 v)) (λ j less.
              elim (Bool-cases (j == l.received - t.tx_len)) [
                | inl last ↦
                    let e : t.tx_len + j ≡ length o.taken = ground (arith, o.received_all) in
                    rw (last, e) (ap u8 (sym (get_or-last o.taken v 0)))
                | inr before ↦ rw before (
                    o.captured j (ground arith)
                    ∙ ap u8 (
                        sym (
                          get_or-before o.taken (v ∷ []) (t.tx_len + j) 0
                            (ground (arith, o.received_all)))))
              ]))
        | inr command ↦ rw command (record_with l.rx (λ j less. absurd (ground arith)))
      ]

  abbrev Ends : Option (Status × Mem) → History → Type 0
  Ends o h = XferEnds spi t start o h

  waited :
      (n : ℕ) (h : History) (l : Loop)
      → OnWire spi t start h l
      → OnWire spi t start (wait_done device spi n h).1 l
  unfolding wait_done
  waited zero h l o = o
  waited (suc n) h l o =
      let status = u32 (device.reply h (cs_address spi)) in
      let o' = polled h l status o in
      if_unit l (any_set status spi_cs_done) _ _ (λ e. o')
        (λ e. waited n (rd (cs_address spi) status ∷ h) l o')

  if_Ends :
      {h : History} (b : Bool) (m k : M (Option (Status × Mem)))
      → (b ≡ true → Ends (m h).0 (m h).1)
      → (b ≡ false → Ends (k h).0 (k h).1)
      → Ends ((if b then m else k) h).0 ((if b then m else k) h).1
  if_Ends true m k p q = p refl
  if_Ends false m k p q = q refl

  -- What feeding and capturing do to the counters.
  feed-same :
      (l : Loop) (status : ℕ) (h : History)
      → ((feed device spi t l status h).0.received ≡ l.received)
        × ((feed device spi t l status h).0.stall ≡ l.stall)
  feed-same l status h = elim (Bool-cases (any_set status spi_cs_txd && ltb l.sent (total t))) [
    | inl goes ↦ rw goes (refl, refl)
    | inr stays ↦ rw stays (refl, refl)
  ]

  capture-same :
      (l : Loop) (h : History)
      → ((capture device spi t l h).0.received ≡ l.received + 1)
        × ((capture device spi t l h).0.stall ≡ 0)
  capture-same l h = elim (Bool-cases (leb t.tx_len l.received)) [
    | inl goes ↦ rw goes (refl, refl)
    | inr stays ↦ rw stays (refl, refl)
  ]

  transfer-Ends :
      (fuel : ℕ) (h : History) (l : Loop)
      → OnWire spi t start h l
      → l.received ≤ total t
      → l.stall ≤ spi_stall_limit
      → (total t - l.received) * (spi_stall_limit + 1) + (spi_stall_limit - l.stall) < fuel
      → Ends (transfer device spi t fuel l h).0 (transfer device spi t fuel l h).1
  unfolding transfer
  transfer-Ends zero h l o some_left patient fits = absurd (omega arith)
  transfer-Ends (suc fuel) h l o some_left patient fits =
      let status = u32 (device.reply h (cs_address spi)) in
      let polled_at = rd (cs_address spi) status ∷ h in
      let next = feed device spi t l status polled_at in
      let o' = fed polled_at l status (polled h l status o) in
      let (same_received, same_stall) = feed-same l status polled_at in
      let got = capture device spi t next.0 next.1 in
      let (one_received, no_stall) = capture-same next.0 next.1 in
      if_Ends (ltb l.received (total t)) _ _
        (λ more.
          if_Ends (any_set status spi_cs_rxd) _ _
            (λ e.
              transfer-Ends fuel got.1 got.0 (taken_one next.1 next.0 o') (ground arith)
                (omega arith) (ground arith))
            (λ e.
              if_Ends (ltb spi_stall_limit (next.0.stall + 1)) _ _
                (λ e'. (
                  (timeout, next.0.rx),
                  next.0,
                  refl,
                  refl,
                  cleared next.1 next.0 0x30 o',
                  inl refl,
                ))
                (λ e'.
                  transfer-Ends fuel next.1 (record next.0 { stall = next.0.stall + 1 })
                    (patience next.1 next.0 (next.0.stall + 1) o') (omega arith) (ground arith)
                    (ground arith))))
        (λ all. (
          (success, l.rx),
          l,
          refl,
          refl,
          cleared _ l 0x30 (waited (spi_stall_limit + 1) h l o),
          inr (refl, ground arith),
        ))

-- SpiXfer ends within (bytes + 1) * (SPI_STALL_LIMIT + 1) rounds, by a stall or with every byte
-- received. Either way it has written to the FIFO a prefix of the command followed by zeros, no
-- more than the bytes of the transfer, and each byte of the answer so far is what the FIFO gave
-- behind the command's bytes.
pub spi_xfer-XferEnds :
    (device : Device) (spi : BootSpi) (t : Transfer) (rx : Mem) (h : History)
    → XferEnds spi t h (spi_xfer device spi t rx h).0 (spi_xfer device spi t rx h).1
unfolding spi_xfer
spi_xfer-XferEnds device spi t rx h =
    let apart : cs_address spi ≢ fifo_address spi = λ e. absurd (omega arith) in
    transfer-Ends device spi t h apart (enough t) (wr (cs_address spi) 0xb0 ∷ h) (fresh rx)
      (cleared device spi t h apart h (fresh rx) 0xb0 (fresh-OnWire spi t h rx)) (omega arith)
      (omega arith) (omega arith)
