-- ===== src/Gem/Dma.antt =====
-- GemDmaAlloc and GemDmaFree of GemHw.c (Silicon/Broadcom/Drivers/Net/Rp1GemDxe), over EDK2's DmaLib.
pub mod Pool
use rpi5_uefi_build.Common.{
  ℕ, ◌+◌, ◌*◌, ◌/◌, ◌^◌, ◌≡◌, ◌≢◌, Bool, ◌||◌, List, ◌∷◌, ltb, leb, ◌==◌, if◌then◌else◌,
}
use rpi5_uefi_build.Gem.{
  Gem, Status, Result, ok, error, success, out_of_resources, rx_desc_count, tx_desc_count,
  rx_buffer_size, tx_buffer_size,
}

-- DmaAllocateBuffer and DmaFreeBuffer on the state of the allocator. `live` lists the buffers handed
-- out and not yet freed, the latest first, each with its pages.
pub record DmaLib : Type 1 where
  pub Pool : Type 0
  pub live : Pool → List (ℕ × ℕ)
  pub allocate : Pool → ℕ → Result (ℕ × Pool)
  pub free : Pool → ℕ → ℕ → Pool
  pub allocate-ok :
      (p p' : Pool) (pages a : ℕ)
      → allocate p pages ≡ ok (a, p')
      → (a ≢ 0) × (live p' ≡ (a, pages) ∷ live p)
  pub allocate-error :
      (p : Pool) (pages : ℕ) (e : Status) → allocate p pages ≡ error e → e ≢ success
  pub free-latest :
      (p : Pool) (pages a : ℕ) (rest : List (ℕ × ℕ))
      → live p ≡ (a, pages) ∷ rest
      → live (free p pages a) ≡ rest

-- EFI_SIZE_TO_PAGES
abbrev pub size_to_pages : ℕ → ℕ
size_to_pages size = (size + 4095) / 4096

abbrev pub rx_size : ℕ
rx_size = rx_desc_count * rx_buffer_size

abbrev pub tx_size : ℕ
tx_size = tx_desc_count * tx_buffer_size

-- sizeof (GEM_DMA_DESC)
abbrev pub desc_size : ℕ
desc_size = 16

-- A buffer that is not below 4 GiB.
abbrev pub beyond_segment : Gem → Bool
beyond_segment gem =
    leb (2 ^ 32) gem.desc_buffer
    || ltb (2 ^ 32) (gem.rx_buffers + rx_size)
    || ltb (2 ^ 32) (gem.tx_buffers + tx_size)

-- The descriptor page divided up.
abbrev pub ring_pointers : Gem → Gem
ring_pointers gem = record gem {
  rx_ring = gem.desc_buffer;
  tx_ring = gem.desc_buffer + rx_desc_count * desc_size;
  null_rx_desc = gem.desc_buffer + (rx_desc_count + tx_desc_count) * desc_size;
  null_tx_desc = gem.desc_buffer + (rx_desc_count + tx_desc_count + 1) * desc_size;
}

module _ (lib : DmaLib) where
  open lib use {Pool, allocate, free}

  -- The labels at the end of GemDmaAlloc: each falls through to the next.
  abbrev pub free_desc : Status → Gem → Pool → Status × Gem × Pool
  free_desc status gem p = (status, record gem { desc_buffer = 0 }, free p 1 gem.desc_buffer)

  abbrev pub free_rx_buffers : Status → Gem → Pool → Status × Gem × Pool
  free_rx_buffers status gem p =
      free_desc status (record gem { rx_buffers = 0 })
        (free p (size_to_pages rx_size) gem.rx_buffers)

  abbrev pub free_tx_buffers : Status → Gem → Pool → Status × Gem × Pool
  free_tx_buffers status gem p =
      free_rx_buffers status (record gem { tx_buffers = 0 })
        (free p (size_to_pages tx_size) gem.tx_buffers)

  -- GemDmaAlloc behind its third, its second and its first allocation.
  abbrev pub after_tx : Gem → Pool → Result (ℕ × Pool) → Status × Gem × Pool
  after_tx gem p (error e) = free_rx_buffers e gem p
  after_tx gem p (ok (a, p')) =
      let full = record gem { tx_buffers = a } in
      if beyond_segment full
      then free_tx_buffers out_of_resources full p'
      else (success, ring_pointers full, p')

  abbrev pub after_rx : Gem → Pool → Result (ℕ × Pool) → Status × Gem × Pool
  after_rx gem p (error e) = free_desc e gem p
  after_rx gem p (ok (a, p')) =
      after_tx (record gem { rx_buffers = a }) p' (allocate p' (size_to_pages tx_size))

  abbrev pub after_desc : Gem → Pool → Result (ℕ × Pool) → Status × Gem × Pool
  after_desc gem p (error e) = (e, gem, p)
  after_desc gem p (ok (a, p')) =
      after_rx (record gem { desc_buffer = a }) p' (allocate p' (size_to_pages rx_size))

  -- `GemDmaAlloc`
  unfoldable pub dma_alloc : Gem → Pool → Status × Gem × Pool
  dma_alloc gem p = after_desc gem p (allocate p 1)

  -- if (buffer != NULL) DmaFreeBuffer (pages, buffer);
  abbrev pub free_some : Pool → ℕ → ℕ → Pool
  free_some p pages a = if a == 0 then p else free p pages a

  -- `GemDmaFree`
  unfoldable pub dma_free : Gem → Pool → Gem × Pool
  dma_free gem p =
      let p₁ = free_some p (size_to_pages tx_size) gem.tx_buffers in
      let p₂ = free_some p₁ (size_to_pages rx_size) gem.rx_buffers in
      let p₃ = free_some p₂ 1 gem.desc_buffer in
      (
        record gem {
          tx_buffers = 0;
          rx_buffers = 0;
          desc_buffer = 0;
          rx_ring = 0;
          tx_ring = 0;
          null_rx_desc = 0;
          null_tx_desc = 0;
        },
        p₃,
      )
