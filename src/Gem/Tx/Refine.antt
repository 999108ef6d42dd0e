-- ===== src/Gem/Tx/Refine.antt =====
-- The transmit ring of Gem/Tx.antt refines the queue of Gem/Tx/Fifo.antt, call by call and over any
-- run of calls and completions.
use rpi5_uefi_build.Common.{
  ℕ, suc, ◌+◌, ◌-◌, ◌^◌, ◌<◌, ◌≡◌, ◌≢◌, refl, ap, ap₂, ◌∙◌, inl, inr, Bool, true, false, [], ◌∷◌,
  ◌++◌, ◌==◌, Bool-cases, arith, u16, u32, bit_and, bit_or, Mem, BaseMemoryLib,
}
use rpi5_uefi_build.Common.Bits.{
  bit, bit_and-pow, bit-below, bit-pow_add, bit_or_bound, bit_and_bound,
}
use rpi5_uefi_build.Gem.{Gem, Desc, put, put_same, put_other, tx_desc_count}
use rpi5_uefi_build.Gem.Regs.{
  txdesc_ctrl_used, txdesc_ctrl_length_mask, txdesc_ctrl_wrap, txdesc_ctrl_last_buf,
}
use rpi5_uefi_build.Gem.Tx.{in_flight, slot, tx_ctrl, is_used, queued, reclaimed}
use rpi5_uefi_build.Gem.Tx.Fifo.{
  Entry, entry, window, fifo, IsRing, window_slot, window_last, window_agree,
}

-- A published descriptor is the hardware's, one with the USED bit is the driver's.
is_used-below : (d : Desc) → d.ctrl < 2 ^ 31 → is_used d ≡ false
unfolding is_used
is_used-below d h =
    let none : bit_and d.ctrl txdesc_ctrl_used ≡ 0 =
      omega (arith, bit_and-pow 31 d.ctrl, bit-below 31 d.ctrl h) in
    rw none refl

pub is_used-pow_add :
    (d : Desc) (status : ℕ) → status < 2 ^ 31 → d.ctrl ≡ 2 ^ 31 + status → is_used d ≡ true
unfolding is_used
is_used-pow_add d status h e =
    let some : bit_and d.ctrl txdesc_ctrl_used ≡ 2 ^ 31 =
      omega (arith, bit_and-pow 31 d.ctrl, ap (bit 31) e, bit-pow_add 31 status h) in
    rw some refl

pub tx_ctrl_bound : (index n : ℕ) → tx_ctrl index n < 2 ^ 31
unfolding tx_ctrl
tx_ctrl_bound index n =
    let masked : u32 (bit_and n txdesc_ctrl_length_mask) < 2 ^ 31 =
      omega (arith, bit_and_bound 31 n txdesc_ctrl_length_mask (omega arith)) in
    let last =
      bit_or_bound 31 (u32 (bit_and n txdesc_ctrl_length_mask)) txdesc_ctrl_last_buf masked
        (omega arith) in
    let wrap =
      bit_or_bound 31 (bit_or (u32 (bit_and n txdesc_ctrl_length_mask)) txdesc_ctrl_last_buf)
        txdesc_ctrl_wrap last (omega arith) in
    elim (Bool-cases (index == tx_desc_count - 1)) [
      | inl end ↦ rw end wrap
      | inr inner ↦ rw inner last
    ]

pub entry_agree :
    {b b' : ℕ} {d d' : Bool}
    → b ≡ b'
    → d ≡ d'
    → ◌≡◌ {A = Entry} (record { buffer = b; done = d }) (record { buffer = b'; done = d' })
entry_agree e e' = ap₂ (λ b d. record { buffer = b; done = d }) e e'

abbrev sent : (ℕ → Desc) → ℕ → ℕ → Desc
sent ring index n = record (ring index) { ctrl = tx_ctrl index n }

module _ (gem : Gem) (ring : IsRing gem) where
  pub in_flight-queued :
      (lib : BaseMemoryLib) (buffer : ℕ) (frame : Mem) (n : ℕ)
      → in_flight gem < tx_desc_count
      → in_flight (queued lib gem buffer frame n) ≡ suc (in_flight gem)
  in_flight-queued lib buffer frame n room = omega (arith, ring.prod_bound, ring.cons_bound)

  pub fifo-queued :
      (lib : BaseMemoryLib) (buffer : ℕ) (frame : Mem) (n : ℕ)
      → in_flight gem < tx_desc_count
      → fifo (queued lib gem buffer frame n)
        ≡ fifo gem ++ (record { buffer = buffer; done = false }) ∷ []
  fifo-queued lib buffer frame n room =
      let g = queued lib gem buffer frame n in
      let f = entry gem.tx_user gem.tx in
      let f' = entry g.tx_user g.tx in
      let m = in_flight gem in
      let here : slot (gem.tx_cons + m) ≡ slot gem.tx_prod =
        omega (arith, ring.prod_bound, ring.cons_bound) in
      let same : window f' gem.tx_cons m ≡ window f gem.tx_cons m =
        window_agree f' f gem.tx_cons m (λ j less.
          let i = slot (gem.tx_cons + j) in
          let apart : i ≢ slot gem.tx_prod = λ e. absurd (omega arith) in
          entry_agree (put_other gem.tx_user (slot gem.tx_prod) buffer i apart) (
            ap is_used
              (put_other gem.tx (slot gem.tx_prod) (sent gem.tx (slot gem.tx_prod) n) i apart))) in
      let new : f' (slot (gem.tx_cons + m)) ≡ (record { buffer = buffer; done = false }) = rw here (
        entry_agree (put_same gem.tx_user (slot gem.tx_prod) buffer) (
          ap is_used (put_same gem.tx (slot gem.tx_prod) (sent gem.tx (slot gem.tx_prod) n))
          ∙ is_used-below (sent gem.tx (slot gem.tx_prod) n)
              (tx_ctrl_bound (slot gem.tx_prod) n))) in
      ap (window f' gem.tx_cons) (in_flight-queued lib buffer frame n room)
      ∙ window_last f' gem.tx_cons m
      ∙ ap₂ (λ q e. q ++ e ∷ []) same new

  pub fifo-reclaimed :
      (m : ℕ)
      → in_flight gem ≡ suc m
      → fifo (reclaimed gem) ≡ window (entry gem.tx_user gem.tx) (suc gem.tx_cons) m
  fifo-reclaimed m e =
      let f = entry gem.tx_user gem.tx in
      let f' = entry (put gem.tx_user (slot gem.tx_cons) 0) gem.tx in
      let rest : window f' (suc gem.tx_cons) m ≡ window f (suc gem.tx_cons) m =
        window_agree f' f (suc gem.tx_cons) m (λ j less.
          entry_agree
            (put_other gem.tx_user (slot gem.tx_cons) 0 (slot (suc gem.tx_cons + j))
              (λ eq. absurd (omega arith)))
            refl) in
      ap (window f' (u16 (gem.tx_cons + 1))) {x = in_flight (reclaimed gem)} {y = m}
        (omega (arith, ring.prod_bound, ring.cons_bound))
      ∙ window_slot f' (u16 (gem.tx_cons + 1)) (suc gem.tx_cons) m (omega arith)
      ∙ rest
