-- ===== src/Gem.antt =====
-- Silicon/Broadcom/Drivers/Net/Rp1GemDxe (under meta-rpi5-uefi/recipes-bsp/edk2-platforms/files/
-- edk2-platforms): the network driver of the RP1's Ethernet MAC. This file has its private data,
-- Rp1GemDxe.h: what is in the descriptor page and the packet buffers stands beside the pointers to
-- them. A pointer is its address; NULL is 0. DEBUG output is left out.
pub mod Tests
pub mod Regs
pub mod Tx
pub mod Mac
pub mod Mdio
pub mod PhyRegs
pub mod Phy
pub mod Snp
pub mod Dma
pub mod Rx
use rpi5_uefi_build.Common.{
  ℕ, zero, suc, ◌+◌, Bool, ◌==◌, if◌then◌else◌, Mem, ◌≡◌, ◌≢◌, refl, arith, ==_ne, ◌⊎◌, inl, inr,
}

-- EFI_STATUS, the values that the driver returns.
pub data Status : Type 0 where
  success timeout not_found not_ready not_started already_started invalid_parameter device_error :
      Status
  access_denied buffer_too_small out_of_resources unsupported : Status

-- What a fallible function leaves: its result or the error.
pub data Result {ℓ} (A : Type ℓ) : Type ℓ where
  ok : A → Result A
  error : Status → Result A

pub Result-cases {ℓ} :
    {A : Type ℓ} (r : Result A) → ((a : A) × (r ≡ ok a)) ⊎ ((e : Status) × (r ≡ error e))
Result-cases (ok a) = inl (a, refl)
Result-cases (error e) = inr (e, refl)

abbrev pub ether_addr_len : ℕ
ether_addr_len = 6

abbrev pub ether_header_size : ℕ
ether_header_size = 14

abbrev pub max_frame_size : ℕ
max_frame_size = 1536

abbrev pub rx_desc_count : ℕ
rx_desc_count = 16

abbrev pub tx_desc_count : ℕ
tx_desc_count = 8

abbrev pub rx_buffer_size : ℕ
rx_buffer_size = 2048

abbrev pub tx_buffer_size : ℕ
tx_buffer_size = 2048

-- GEM_DMA_DESC
pub record Desc : Type 0 where
  pub addr : ℕ
  pub ctrl : ℕ
  pub addr_hi : ℕ
  pub unused : ℕ

-- EFI_SIMPLE_NETWORK_STATE
pub data SnpState : Type 0 where
  stopped started initialized : SnpState

-- The fields of EFI_SIMPLE_NETWORK_MODE that the driver uses; a MAC address is its bytes.
pub record SnpMode : Type 0 where
  pub state : SnpState
  pub media_header_size : ℕ
  pub receive_filter_mask : ℕ
  pub receive_filter_setting : ℕ
  pub max_mcast_filter_count : ℕ
  pub mcast_filter_count : ℕ
  pub mcast_filter : ℕ → Mem
  pub current_address : Mem
  pub permanent_address : Mem
  pub media_present : Bool

-- RP1_GEM_PRIVATE_DATA
pub record Gem : Type 0 where
  pub gem_base : ℕ
  pub eth_cfg_base : ℕ
  pub mode : SnpMode
  pub phy_addr : ℕ
  pub link_up : Bool
  pub desc_buffer : ℕ
  pub rx_ring : ℕ
  pub tx_ring : ℕ
  pub null_rx_desc : ℕ
  pub null_tx_desc : ℕ
  pub rx_buffers : ℕ
  pub tx_buffers : ℕ
  -- What the descriptors and the buffers hold.
  pub rx : ℕ → Desc
  pub tx : ℕ → Desc
  pub null_rx : Desc
  pub null_tx : Desc
  pub rx_data : Mem
  pub tx_data : Mem
  pub rx_head : ℕ
  pub tx_prod : ℕ
  pub tx_cons : ℕ
  pub tx_user : ℕ → ℕ

-- a[i] = v
unfoldable pub put {ℓ} : {A : Type ℓ} → (ℕ → A) → ℕ → A → ℕ → A
put a i v j = if j == i then v else a j

pub put_same {ℓ} : {A : Type ℓ} (a : ℕ → A) (i : ℕ) (v : A) → put a i v i ≡ v
unfolding put
put_same a i v = ground arith

pub put_other {ℓ} : {A : Type ℓ} (a : ℕ → A) (i : ℕ) (v : A) (j : ℕ) → j ≢ i → put a i v j ≡ a j
unfolding put
put_other a i v j ne = rw (==_ne j i ne) refl

-- for (i = 0; i < n; i++) a[i] = f (i);
unfoldable pub fill {ℓ} : {A : Type ℓ} → ℕ → (ℕ → A) → (ℕ → A) → ℕ → A
fill zero f a = a
fill (suc n) f a = put (fill n f a) n (f n)
