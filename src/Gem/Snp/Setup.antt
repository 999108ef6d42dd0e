-- ===== src/Gem/Snp/Setup.antt =====
-- Initialize, ReceiveFilters and StationAddress keep the order of Gem/Snp/Ready.antt.
use rpi5_uefi_build.Common.{
  ℕ, ◌≡◌, refl, Bool, true, false, Option, none, some, arith, Mem, BaseMemoryLib, bit_or, bit_and,
  not32,
}
use rpi5_uefi_build.Common.Mmio.{Device, History}
use rpi5_uefi_build.Gem.{Gem, Result, ok, error, started, initialized}
use rpi5_uefi_build.Gem.Mac.{
  mac_reset, mac_configure, init_rings, initial_rings, has, receive_multicast,
}
use rpi5_uefi_build.Gem.Mac.Fresh.{mac_configure-IsFresh}
use rpi5_uefi_build.Gem.Phy.{phy_init}
use rpi5_uefi_build.Gem.Phy.Changes.{phy_init-keeps}
use rpi5_uefi_build.Gem.Snp.{
  snp_initialize, snp_receive_filters, snp_station_address, phy_up, bad_filters, new_filters,
}
use rpi5_uefi_build.Gem.Snp.Ready.{Ready, IsReady, Keeps, Left, if_any, when_any, state_any}

-- A started interface whose rings are fit for an initialized one.
abbrev IsArmed : Gem → Type 0
IsArmed gem =
    Ready initialized false gem.tx_prod gem.tx_cons gem.tx_ring gem.rx_head gem.rx_buffers
    × (gem.mode.state ≡ started)
    × IsReady gem

module _ (device : Device) (gem : Gem) (ready : IsReady gem) where
  mac_configure-IsArmed :
      (h : History) → gem.mode.state ≡ started → IsArmed (mac_configure device gem h).0
  unfolding mac_configure init_rings initial_rings
  mac_configure-IsArmed h e =
      let fresh = mac_configure-IsFresh device gem h ready.aligned ready.there in
      let ring = fresh.ring in
      let new : Ready initialized false 0 0 gem.tx_ring 0 gem.rx_buffers = record {
        rings = λ r. (omega arith, omega arith, ring.flight_bound, omega arith);
        media_only = λ m. refl;
        there = ready.there;
        aligned = ready.aligned;
      } in
      (
        new,
        e,
        record {
          rings = λ e'. new.rings refl;
          media_only = ready.media_only;
          there = ready.there;
          aligned = ready.aligned;
        },
      )

  phy_up-IsReady :
      (r : Result (Unit {0}) × Gem) (h : History) → IsArmed r.1 → IsReady (phy_up device r h).0.1
  phy_up-IsReady (error e, gem') h armed = armed.2
  phy_up-IsReady (ok u, gem') h armed = armed.0

  pub snp_initialize-IsReady :
      (rp1_base : Option ℕ) (pcd : ℕ) → Keeps (snp_initialize device rp1_base pcd gem)
  unfolding snp_initialize
  snp_initialize-IsReady rp1_base pcd h =
      state_any (Left h) gem.mode.state _ _ _ (λ e. ready)
        (λ e.
          let reset = mac_reset device gem h in
          let set = mac_configure device gem reset.1 in
          let phy = phy_init device rp1_base pcd set.0 set.1 in
          phy_up-IsReady phy.0 phy.1 (
            phy_init-keeps device IsArmed (λ g p up q. q) rp1_base pcd set.0 set.1
              (mac_configure-IsArmed reset.1 e)))
        (λ e. ready)

  new_filters-IsReady :
      (lib : BaseMemoryLib) (setting : ℕ) (reset : Bool) (count : ℕ) (list : Option (ℕ → Mem))
      → IsReady (new_filters lib gem setting reset count list)
  new_filters-IsReady lib setting reset count list =
      if_any IsReady reset _ _ (λ e. ready)
        (λ e. if_any IsReady (has setting receive_multicast) _ _ (λ e'. ready) (λ e'. ready))

  pub snp_receive_filters-IsReady :
      (lib : BaseMemoryLib) (enable disable : ℕ) (reset : Bool) (count : ℕ)
      (list : Option (ℕ → Mem))
      → Keeps (snp_receive_filters device lib gem enable disable reset count list)
  unfolding snp_receive_filters
  snp_receive_filters-IsReady lib enable disable reset count list h =
      if_any (Left h) (bad_filters gem enable disable reset count list) _ _ (λ e. ready)
        (λ e.
          when_any (Left h) gem.mode.state _ _ (λ e'. ready)
            (λ e'.
              new_filters-IsReady lib
                (bit_and (bit_or gem.mode.receive_filter_setting enable) (not32 disable)) reset
                count list))

pub snp_station_address-IsReady :
    (lib : BaseMemoryLib) (gem : Gem) (reset : Bool) (new : Option Mem)
    → IsReady gem
    → Keeps (snp_station_address lib gem reset new)
unfolding snp_station_address
snp_station_address-IsReady lib gem true new ready h =
    when_any (Left h) gem.mode.state _ _ (λ e. ready) (λ e. ready)
snp_station_address-IsReady lib gem false none ready h = ready
snp_station_address-IsReady lib gem false (some new) ready h =
    when_any (Left h) gem.mode.state _ _ (λ e. ready) (λ e. ready)
