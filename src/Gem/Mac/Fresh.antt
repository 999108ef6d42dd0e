-- ===== src/Gem/Mac/Fresh.antt =====
-- The rings as GemMacConfigure leaves them.
use rpi5_uefi_build.Common.{
  ℕ, zero, suc, ◌+◌, ◌*◌, ◌%◌, ◌^◌, ◌<◌, ◌≡◌, ◌≢◌, refl, sym, subst, ◌∙◌, inl, inr, true, false, [],
  ◌==◌, if◌then◌else◌, Bool-cases, arith, u32, u64, bit_and, bit_or,
}
use rpi5_uefi_build.Common.Bits.{bit, bit_and-pow, bit-bit_or}
use rpi5_uefi_build.Common.Mmio.{Device, History}
use rpi5_uefi_build.Gem.{
  Gem, Desc, fill, put_same, put_other, rx_desc_count, tx_desc_count, rx_buffer_size,
}
use rpi5_uefi_build.Gem.Regs.{rxdesc_addr_own}
use rpi5_uefi_build.Gem.Mac.{initial_rx, initial_tx, initial_rings, init_rings, mac_configure}
use rpi5_uefi_build.Gem.Tx.{is_used}
use rpi5_uefi_build.Gem.Tx.Fifo.{IsRing, fifo}
use rpi5_uefi_build.Gem.Rx.{is_owned}
use rpi5_uefi_build.Gem.Rx.Queue.{queue, queue-empty}

pub fill_below {ℓ} : {A : Type ℓ} (n : ℕ) (f a : ℕ → A) (j : ℕ) → j < n → fill n f a j ≡ f j
unfolding fill
fill_below zero f a j h = absurd (omega arith)
fill_below (suc n) f a j h = elim (Bool-cases (j == n)) [
  | inl here ↦ let e : j ≡ n = ground arith in rw e (put_same (fill n f a) n (f n))
  | inr before ↦
      put_other (fill n f a) n (f n) j (λ e. ground arith) ∙ fill_below n f a j (ground arith)
]

-- Nothing is in flight and nothing is received; every receive descriptor is the hardware's and every
-- transmit descriptor the driver's, with WRAP on the last of each; the queues' null descriptors are
-- the driver's.
pub record IsFresh (gem : Gem) : Type 0 where
  pub ring : IsRing gem
  pub none_sent : fifo gem ≡ []
  pub none_received : queue gem ≡ []
  pub head : gem.rx_head ≡ 0
  pub rx_free :
      (i : ℕ)
      → i < rx_desc_count
      → (is_owned (gem.rx i) ≡ false) × (bit 1 (gem.rx i).addr ≡ (if i == 15 then 1 else 0))
  pub tx_free :
      (i : ℕ)
      → i < tx_desc_count
      → (is_used (gem.tx i) ≡ true) × (bit 30 (gem.tx i).ctrl ≡ (if i == 7 then 1 else 0))
  pub parked : (is_owned gem.null_rx ≡ true) × (is_used gem.null_tx ≡ true)

-- An address of a multiple of 4, with WRAP or without.
word-bits :
    (at wrap : ℕ)
    → at % 4 ≡ 0
    → (bit_and (bit_or at (2 * wrap)) rxdesc_addr_own ≡ 0)
      × (bit 1 (bit_or at (2 * wrap)) ≡ wrap % 2)
word-bits at wrap h = (
  omega (arith, bit_and-pow 0 (bit_or at (2 * wrap)), bit-bit_or 0 at (2 * wrap)),
  omega (arith, bit-bit_or 1 at (2 * wrap)),
)

module _ (gem : Gem) (aligned : gem.rx_buffers % 4 ≡ 0) where
  initial_rx-bits :
      (i : ℕ)
      → (is_owned (initial_rx gem i) ≡ false)
        × (bit 1 (initial_rx gem i).addr ≡ (if i == 15 then 1 else 0))
  unfolding is_owned
  initial_rx-bits i =
      let at = u32 (u64 (gem.rx_buffers + i * rx_buffer_size)) in
      let low : at % 4 ≡ 0 = omega (arith, aligned) in
      elim (Bool-cases (i == 15)) [
        | inl last ↦ let (own, wrap) = word-bits at 1 low in rw (last, own) (refl, wrap)
        | inr inner ↦ let (own, wrap) = word-bits at 0 low in rw (inner, own) (refl, wrap)
      ]

initial_tx-bits :
    (gem : Gem) (i : ℕ)
    → (is_used (initial_tx gem i) ≡ true)
      × (bit 30 (initial_tx gem i).ctrl ≡ (if i == 7 then 1 else 0))
unfolding is_used
initial_tx-bits gem i = elim (Bool-cases (i == 7)) [
  | inl last ↦ rw last (refl, refl)
  | inr inner ↦ rw inner (refl, refl)
]

null_descs :
    (is_owned (record { addr = 3; ctrl = 0; addr_hi = 0; unused = 0 }) ≡ true)
    × (is_used (record { addr = 0; ctrl = 2 ^ 31 + 2 ^ 30; addr_hi = 0; unused = 0 }) ≡ true)
unfolding is_owned is_used
null_descs = (refl, refl)

initial_rings-IsFresh :
    (gem : Gem) → gem.rx_buffers % 4 ≡ 0 → gem.tx_ring ≢ 0 → IsFresh (initial_rings gem)
unfolding initial_rings
initial_rings-IsFresh gem aligned there =
    let rx : (i : ℕ)
        → i < rx_desc_count
        → fill rx_desc_count (initial_rx gem) gem.rx i ≡ initial_rx gem i =
      fill_below rx_desc_count (initial_rx gem) gem.rx in
    let tx : (i : ℕ)
        → i < tx_desc_count
        → fill tx_desc_count (initial_tx gem) gem.tx i ≡ initial_tx gem i =
      fill_below tx_desc_count (initial_tx gem) gem.tx in
    let free : (i : ℕ)
        → i < rx_desc_count
        → (is_owned ((initial_rings gem).rx i) ≡ false)
          × (bit 1 ((initial_rings gem).rx i).addr ≡ (if i == 15 then 1 else 0)) =
      λ i h.
        subst (λ (d : Desc). (is_owned d ≡ false) × (bit 1 d.addr ≡ (if i == 15 then 1 else 0)))
          (sym (rx i h)) (initial_rx-bits gem aligned i) in
    record {
      ring = record {
        prod_bound = omega arith;
        cons_bound = omega arith;
        flight_bound = omega arith;
        mapped = there;
      };
      none_sent = refl;
      none_received = queue-empty (initial_rings gem) (omega arith) (free 0 (omega arith)).0;
      head = refl;
      rx_free = free;
      tx_free = λ i h.
          subst (λ (d : Desc). (is_used d ≡ true) × (bit 30 d.ctrl ≡ (if i == 7 then 1 else 0)))
            (sym (tx i h)) (initial_tx-bits gem i);
      parked = null_descs;
    }

-- With the receive buffers 4-aligned and a transmit ring, GemMacConfigure leaves empty rings:
-- every receive descriptor belongs to the hardware and every transmit descriptor to the driver,
-- WRAP stands on the last of each ring only, and the null descriptors of the priority queues are
-- the driver's.
pub mac_configure-IsFresh :
    (device : Device) (gem : Gem) (h : History)
    → gem.rx_buffers % 4 ≡ 0
    → gem.tx_ring ≢ 0
    → IsFresh (mac_configure device gem h).0
unfolding mac_configure init_rings
mac_configure-IsFresh device gem h aligned there = initial_rings-IsFresh gem aligned there
