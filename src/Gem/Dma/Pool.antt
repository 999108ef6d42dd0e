-- ===== src/Gem/Dma/Pool.antt =====
-- What GemDmaAlloc and GemDmaFree leave allocated.
use rpi5_uefi_build.Common.{
  ℕ, ◌+◌, ◌*◌, ◌^◌, ◌<◌, ◌≤◌, arith, ◌≡◌, ◌≢◌, refl, ap, ◌∙◌, inl, inr, List, ◌∷◌, ==_ne,
  Bool-cases, subst,
}
use rpi5_uefi_build.Gem.{Gem, Status, Result, ok, error, success}
use rpi5_uefi_build.Gem.Dma.{
  DmaLib, size_to_pages, rx_size, tx_size, beyond_segment, after_tx, after_rx, after_desc,
  dma_alloc, dma_free,
}

-- After GemDmaAlloc: on success the three buffers are allocated, below 4 GiB, and the ring pointers
-- divide the descriptor page up; otherwise nothing has been allocated that was not there before.
pub record IsAllocated (lib : DmaLib) (before : List (ℕ × ℕ)) (gem : Gem) (p : lib.Pool)
    : Type 0 where
  pub owned :
      lib.live p
      ≡ (gem.tx_buffers, size_to_pages tx_size)
        ∷ (gem.rx_buffers, size_to_pages rx_size)
        ∷ (gem.desc_buffer, 1)
        ∷ before
  pub there : (gem.tx_buffers ≢ 0) × (gem.rx_buffers ≢ 0) × (gem.desc_buffer ≢ 0)
  -- a page of descriptors, 16 receive and 8 transmit buffers of 2048 bytes
  pub below :
      (gem.desc_buffer < 2 ^ 32)
      × (gem.rx_buffers + 16 * 2048 ≤ 2 ^ 32)
      × (gem.tx_buffers + 8 * 2048 ≤ 2 ^ 32)
  -- 16 and 8 descriptors of 16 bytes and one of each for the parked queues, in 4096 bytes
  pub divided :
      (gem.rx_ring ≡ gem.desc_buffer)
      × (gem.tx_ring ≡ gem.rx_ring + 16 * 16)
      × (gem.null_rx_desc ≡ gem.tx_ring + 8 * 16)
      × (gem.null_tx_desc ≡ gem.null_rx_desc + 16)
      × (gem.null_tx_desc + 16 ≤ gem.desc_buffer + 4096)

abbrev pub Outcome : (lib : DmaLib) → List (ℕ × ℕ) → Status × Gem × lib.Pool → Type 0
Outcome lib before (success, gem, p) = IsAllocated lib before gem p
Outcome lib before (status, gem, p) = lib.live p ≡ before

Outcome-error :
    (lib : DmaLib) (before : List (ℕ × ℕ)) (e : Status) (gem : Gem) (p : lib.Pool)
    → e ≢ success
    → lib.live p ≡ before
    → Outcome lib before (e, gem, p)
Outcome-error lib before success gem p ne h = absurd (ne refl)
Outcome-error lib before e gem p ne h = h

module _ (lib : DmaLib) (before : List (ℕ × ℕ)) where
  open lib use {Pool, live, allocate, free, allocate-ok, allocate-error, free-latest}

  freed_two :
      (p : Pool) (rx desc : ℕ)
      → live p ≡ (rx, size_to_pages rx_size) ∷ (desc, 1) ∷ before
      → live (free (free p (size_to_pages rx_size) rx) 1 desc) ≡ before
  freed_two p rx desc h =
      free-latest (free p (size_to_pages rx_size) rx) 1 desc before
        (free-latest p (size_to_pages rx_size) rx ((desc, 1) ∷ before) h)

  freed_three :
      (p : Pool) (tx rx desc : ℕ)
      → live p ≡ (tx, size_to_pages tx_size) ∷ (rx, size_to_pages rx_size) ∷ (desc, 1) ∷ before
      → live (free (free (free p (size_to_pages tx_size) tx) (size_to_pages rx_size) rx) 1 desc)
        ≡ before
  freed_three p tx rx desc h = freed_two (free p (size_to_pages tx_size) tx) rx desc (
      free-latest p (size_to_pages tx_size) tx ((rx, size_to_pages rx_size) ∷ (desc, 1) ∷ before) h)

  after_tx-Outcome :
      (gem : Gem) (p : Pool) (r : Result (ℕ × Pool))
      → allocate p (size_to_pages tx_size) ≡ r
      → live p ≡ (gem.rx_buffers, size_to_pages rx_size) ∷ (gem.desc_buffer, 1) ∷ before
      → gem.rx_buffers ≢ 0
      → gem.desc_buffer ≢ 0
      → Outcome lib before (after_tx lib gem p r)
  after_tx-Outcome gem p (error e) q h rx desc =
      Outcome-error lib before e (record gem { rx_buffers = 0; desc_buffer = 0 }) _
        (allocate-error p (size_to_pages tx_size) e q)
        (freed_two p gem.rx_buffers gem.desc_buffer h)
  after_tx-Outcome gem p (ok (a, p')) q h rx desc =
      let (tx, more) = allocate-ok p p' (size_to_pages tx_size) a q in
      let whole = more ∙ ap (◌∷◌ (a, size_to_pages tx_size)) h in
      let full : Gem = record gem { tx_buffers = a } in
      elim (Bool-cases (beyond_segment full)) [
        | inl beyond ↦ rw beyond (freed_three p' a gem.rx_buffers gem.desc_buffer whole)
        | inr below ↦ rw below (record {
          owned = whole;
          there = (tx, rx, desc);
          below = ground arith;
          divided = omega arith;
        })
      ]

  after_rx-Outcome :
      (gem : Gem) (p : Pool) (r : Result (ℕ × Pool))
      → allocate p (size_to_pages rx_size) ≡ r
      → live p ≡ (gem.desc_buffer, 1) ∷ before
      → gem.desc_buffer ≢ 0
      → Outcome lib before (after_rx lib gem p r)
  after_rx-Outcome gem p (error e) q h desc =
      Outcome-error lib before e (record gem { desc_buffer = 0 }) _
        (allocate-error p (size_to_pages rx_size) e q) (free-latest p 1 gem.desc_buffer before h)
  after_rx-Outcome gem p (ok (a, p')) q h desc =
      let (rx, more) = allocate-ok p p' (size_to_pages rx_size) a q in
      after_tx-Outcome (record gem { rx_buffers = a }) p' (allocate p' (size_to_pages tx_size)) refl
        (more ∙ ap (◌∷◌ (a, size_to_pages rx_size)) h) rx desc

  after_desc-Outcome :
      (gem : Gem) (p : Pool) (r : Result (ℕ × Pool))
      → allocate p 1 ≡ r
      → live p ≡ before
      → Outcome lib before (after_desc lib gem p r)
  after_desc-Outcome gem p (error e) q h =
      Outcome-error lib before e gem p (allocate-error p 1 e q) h
  after_desc-Outcome gem p (ok (a, p')) q h =
      let (desc, more) = allocate-ok p p' 1 a q in
      after_rx-Outcome (record gem { desc_buffer = a }) p' (allocate p' (size_to_pages rx_size))
        refl (more ∙ ap (◌∷◌ (a, 1)) h) desc

-- When GemDmaAlloc succeeds, the three buffers it allocated are not NULL and end below 4 GiB, and
-- the two rings and the two descriptors of the parked queues stand one behind the other in the
-- descriptor page; on every other outcome the allocator has handed out what it had before.
pub dma_alloc-Outcome :
    (lib : DmaLib) (gem : Gem) (p : lib.Pool) → Outcome lib (lib.live p) (dma_alloc lib gem p)
unfolding dma_alloc
dma_alloc-Outcome lib gem p = after_desc-Outcome lib (lib.live p) gem p (lib.allocate p 1) refl refl

-- After GemDmaAlloc has succeeded, GemDmaFree gives the allocator back all that GemDmaAlloc took.
pub dma_free-dma_alloc :
    (lib : DmaLib) (gem gem' : Gem) (p p' : lib.Pool)
    → dma_alloc lib gem p ≡ (success, gem', p')
    → lib.live (dma_free lib gem' p').1 ≡ lib.live p
unfolding dma_free
dma_free-dma_alloc lib gem gem' p p' e =
    let done : IsAllocated lib (lib.live p) gem' p' =
      subst (λ (o : Status × Gem × lib.Pool). Outcome lib (lib.live p) o) e
        (dma_alloc-Outcome lib gem p) in
    let (tx, rx, desc) = done.there in
    rw (==_ne gem'.tx_buffers 0 tx, ==_ne gem'.rx_buffers 0 rx, ==_ne gem'.desc_buffer 0 desc)
      (freed_three lib (lib.live p) p' gem'.tx_buffers gem'.rx_buffers gem'.desc_buffer done.owned)
