-- ===== src/Gem/Snp.antt =====
-- Snp.c of Silicon/Broadcom/Drivers/Net/Rp1GemDxe: the calls of the Simple Network Protocol that change
-- the interface's state, filters and address. A call gets the private data behind a `This` that is not
-- NULL; every call but Statistics and NvData checks that first (`with_this`).
pub mod Traffic
pub mod Ready
pub mod Setup
pub mod Up
pub mod Reach
use rpi5_uefi_build.Common.{
  ℕ, zero, suc, Bool, true, false, not, ◌&&◌, ◌||◌, Option, none, some, ltb, ◌==◌, if◌then◌else◌,
  u32, not32, bit_and, bit_or, Mem, store, BaseMemoryLib,
}
use rpi5_uefi_build.Common.Mmio.{Device, M, pure, ◌>>=◌, ◌>>◌}
use rpi5_uefi_build.Gem.{
  Gem, Status, Result, ok, error, success, not_started, already_started, device_error,
  invalid_parameter, unsupported, stopped, started, initialized, SnpState, put,
}
use rpi5_uefi_build.Gem.Mac.{
  mac_reset, mac_configure, mac_enable_tx_rx, mac_disable_tx_rx, set_mac_address,
  set_receive_filters, has, receive_multicast,
}
use rpi5_uefi_build.Gem.Phy.{phy_init}

-- sizeof (EFI_MAC_ADDRESS)
abbrev pub mac_address_size : ℕ
mac_address_size = 32

-- if (This == NULL) return EFI_INVALID_PARAMETER;
abbrev pub with_this : Option Gem → (Gem → M (Status × Gem)) → M (Status × Option Gem)
with_this none call = pure (invalid_parameter, none)
with_this (some gem) call = do (status, gem') ← call gem; pure (status, some gem')

-- The calls that need an initialized interface check its state this way.
abbrev pub when_initialized {ℓ} : {A : Type ℓ} → SnpState → (Status → A) → A → A
when_initialized stopped fail go = fail not_started
when_initialized started fail go = fail device_error
when_initialized initialized fail go = go

abbrev pub set_state : Gem → SnpState → Gem
set_state gem s = record gem { mode = record gem.mode { state = s } }

abbrev pub set_media : Gem → Bool → Gem
set_media gem present = record gem { mode = record gem.mode { media_present = present } }

-- `Rp1GemSnpStart`
unfoldable pub snp_start : Gem → M (Status × Gem)
snp_start gem = elim gem.mode.state [
  | started ↦ pure (already_started, gem)
  | stopped ↦ pure (success, set_state gem started)
  | initialized ↦ pure (device_error, gem)
]

-- MAX_MCAST_FILTER_CNT, the entries of MCastFilter.
abbrev max_mcast_filter_cnt : ℕ
max_mcast_filter_cnt = 16

-- MCastFilter[0 .. n) copied from the caller's list. What C writes behind the array's end is left out.
abbrev pub copy_filters : BaseMemoryLib → ℕ → (ℕ → Mem) → (ℕ → Mem) → ℕ → Mem
copy_filters lib zero source filters = filters
copy_filters lib (suc n) source filters =
    let rest = copy_filters lib n source filters in
    if ltb n max_mcast_filter_cnt
    then put rest n (lib.copy_mem (filters n) 0 (source n) mac_address_size)
    else rest

-- The caller's list; without one nothing is copied.
abbrev pub copy_list : BaseMemoryLib → ℕ → Option (ℕ → Mem) → (ℕ → Mem) → ℕ → Mem
copy_list lib n none filters = filters
copy_list lib n (some source) filters = copy_filters lib n source filters

-- The caller's list is missing.
abbrev pub is_null {ℓ} : {A : Type ℓ} → Option A → Bool
is_null none = true
is_null (some a) = false

-- The filters enabled and disabled that ReceiveFilters refuses.
abbrev pub bad_filters : Gem → ℕ → ℕ → Bool → ℕ → Option (ℕ → Mem) → Bool
bad_filters gem enable disable reset count list =
    has (bit_or enable disable) (not32 gem.mode.receive_filter_mask)
    || (not reset
        && has (bit_and enable (not32 disable)) receive_multicast
        && (ltb gem.mode.max_mcast_filter_count count || (not (count == 0) && is_null list)))

-- The mode with new filters.
abbrev pub new_filters : BaseMemoryLib → Gem → ℕ → Bool → ℕ → Option (ℕ → Mem) → Gem
new_filters lib gem setting reset count list =
    let cleared : Gem = record gem {
      mode = record gem.mode {
        mcast_filter_count = 0;
        mcast_filter = λ i. lib.set_mem (gem.mode.mcast_filter i) 0 mac_address_size 0;
      };
    } in
    let listed : Gem = record gem {
      mode = record gem.mode {
        mcast_filter_count = u32 count;
        mcast_filter = copy_list lib count list gem.mode.mcast_filter;
      };
    } in
    if reset then cleared else if has setting receive_multicast then listed else gem

module _ (device : Device) where
  -- `Rp1GemSnpStop`
  unfoldable pub snp_stop : Gem → M (Status × Gem)
  snp_stop gem = elim gem.mode.state [
    | stopped ↦ pure (not_started, gem)
    | started ↦ mac_disable_tx_rx device gem >> pure (success, set_state gem stopped)
    | initialized ↦ pure (device_error, gem)
  ]

  -- Initialize and Reset behind Rp1GemPhyInit.
  abbrev pub phy_up : Result (Unit {0}) × Gem → M (Status × Gem)
  phy_up (error e, gem) = pure (e, gem)
  phy_up (ok u, gem) = do
    mac_enable_tx_rx device gem
    pure (success, set_state (set_media gem false) initialized)

  abbrev pub phy_again : Result (Unit {0}) × Gem → Status × Gem
  phy_again (error e, gem) = (e, gem)
  phy_again (ok u, gem) = (success, set_media gem false)

  -- `Rp1GemSnpInitialize`; the RP1's peripheral base and PcdRp1GemPhyAddress are the PHY's.
  unfoldable pub snp_initialize : Option ℕ → ℕ → Gem → M (Status × Gem)
  snp_initialize rp1_base pcd gem =
      let up = do
        mac_reset device gem
        gem' ← mac_configure device gem
        r ← phy_init device rp1_base pcd gem'
        phy_up r
      in elim gem.mode.state [
        | stopped ↦ pure (not_started, gem)
        | started ↦ up
        | initialized ↦ pure (device_error, gem)
      ]

  -- `Rp1GemSnpReset`
  unfoldable pub snp_reset : Option ℕ → ℕ → Gem → M (Status × Gem)
  snp_reset rp1_base pcd gem =
      let again = phy_init device rp1_base pcd gem >>= λ r. pure (phy_again r) in
      when_initialized gem.mode.state (λ e. pure (e, gem)) again

  -- `Rp1GemSnpShutdown`
  unfoldable pub snp_shutdown : Gem → M (Status × Gem)
  snp_shutdown gem =
      let down = do
        mac_disable_tx_rx device gem
        mac_reset device gem
        pure (success, set_state (set_media gem false) started)
      in when_initialized gem.mode.state (λ e. pure (e, gem)) down

  -- `Rp1GemSnpReceiveFilters`; a NULL list with a count is undefined in C where it is not refused.
  unfoldable pub snp_receive_filters :
      BaseMemoryLib → Gem → ℕ → ℕ → Bool → ℕ → Option (ℕ → Mem) → M (Status × Gem)
  snp_receive_filters lib gem enable disable reset count list =
      let setting = bit_and (bit_or gem.mode.receive_filter_setting enable) (not32 disable) in
      let gem' = new_filters lib gem setting reset count list in
      let applied = do
        set_receive_filters device gem' setting
        pure (success, record gem' { mode = record gem'.mode { receive_filter_setting = setting } })
      in if bad_filters gem enable disable reset count list
        then pure (invalid_parameter, gem)
        else when_initialized gem.mode.state (λ e. pure (e, gem)) applied

-- The station address: the permanent one or the caller's.
abbrev pub with_address : BaseMemoryLib → Gem → Mem → Gem
with_address lib gem address = record gem {
  mode = record gem.mode {
    current_address = lib.copy_mem gem.mode.current_address 0 address mac_address_size;
  };
}

abbrev pub apply_address : BaseMemoryLib → Gem → Mem → M (Status × Gem)
apply_address lib gem address = do
  let gem' : Gem = with_address lib gem address
  set_mac_address gem' gem'.mode.current_address
  pure (success, gem')

-- `Rp1GemSnpStationAddress`
unfoldable pub snp_station_address : BaseMemoryLib → Gem → Bool → Option Mem → M (Status × Gem)
snp_station_address lib gem true new =
    when_initialized gem.mode.state (λ e. pure (e, gem))
      (apply_address lib gem gem.mode.permanent_address)
snp_station_address lib gem false none = pure (invalid_parameter, gem)
snp_station_address lib gem false (some new) =
    when_initialized gem.mode.state (λ e. pure (e, gem)) (apply_address lib gem new)

-- The address of a multicast group, over a MAC address that has been zeroed.
abbrev pub ipv6_mac : Mem → Mem → Status × Mem
ipv6_mac ip mac =
    let mac₂ = store (store mac 0 0x33) 1 0x33 in
    if not (ip 0 == 0xff)
    then (invalid_parameter, mac)
    else (success, store (store (store (store mac₂ 2 (ip 12)) 3 (ip 13)) 4 (ip 14)) 5 (ip 15))

abbrev pub ipv4_mac : Mem → Mem → Status × Mem
ipv4_mac ip mac =
    let mac₃ = store (store (store mac 0 0x01) 1 0x00) 2 0x5e in
    if not (bit_and (ip 0) 0xf0 == 0xe0)
    then (invalid_parameter, mac)
    else (success, store (store (store mac₃ 3 (bit_and (ip 1) 0x7f)) 4 (ip 2)) 5 (ip 3))

-- `Rp1GemSnpMCastIpToMac`, with the bytes of the two addresses.
unfoldable pub snp_mcast_ip_to_mac :
    BaseMemoryLib → Gem → Bool → Option Mem → Option Mem → Status × Option Mem
snp_mcast_ip_to_mac lib gem ipv6 none mac = (invalid_parameter, mac)
snp_mcast_ip_to_mac lib gem ipv6 (some ip) none = (invalid_parameter, none)
snp_mcast_ip_to_mac lib gem ipv6 (some ip) (some mac) =
    let clear = lib.set_mem mac 0 mac_address_size 0 in
    let made = if ipv6 then ipv6_mac ip clear else ipv4_mac ip clear in
    when_initialized gem.mode.state (λ e. (e, some mac)) (made.0, some made.1)

-- `Rp1GemSnpStatistics` and `Rp1GemSnpNvData`
abbrev pub snp_statistics : Status
snp_statistics = unsupported

abbrev pub snp_nv_data : Status
snp_nv_data = unsupported
