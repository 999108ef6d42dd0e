-- ===== src/Gem/Snp/Up.antt =====
-- What GetStatus, Transmit and Receive call keeps an initialized interface in the order of
-- Gem/Snp/Ready.antt.
use rpi5_uefi_build.Common.{
  ℕ, zero, suc, ◌≡◌, Bool, true, not, Option, none, some, ltb, leb, ◌==◌, arith, Mem, BaseMemoryLib,
}
use rpi5_uefi_build.Common.Mmio.{Device, M, History}
use rpi5_uefi_build.Gem.{Gem, initialized, tx_desc_count}
use rpi5_uefi_build.Gem.Phy.{phy_update_config}
use rpi5_uefi_build.Gem.Phy.Changes.{phy_update_config-keeps}
use rpi5_uefi_build.Gem.Tx.{in_flight, slot, is_used, transmit_frame, get_recycled_tx_buffer}
use rpi5_uefi_build.Gem.Rx.{
  Received, is_owned, is_bad, frame_length, receive_frame, recycle_rx_descriptor,
}
use rpi5_uefi_build.Gem.Snp.{set_media}
use rpi5_uefi_build.Gem.Snp.Traffic.{is_success, wait_link, link_tries, ensure_link}
use rpi5_uefi_build.Gem.Snp.Ready.{IsReady, if_any}

-- An initialized interface in order.
abbrev pub IsUp : Gem → Type 0
IsUp gem = IsReady gem × (gem.mode.state ≡ initialized)

abbrev pub LeftUp : {A : Type 0} → History → M (A × Gem) → Type 0
LeftUp h m = IsUp (m h).0.1

pub get_recycled-IsUp :
    (gem : Gem) (h : History) → IsUp gem → IsUp (get_recycled_tx_buffer gem h).0.1
unfolding get_recycled_tx_buffer
get_recycled-IsUp gem h (ready, e) =
    if_any (LeftUp h) (gem.tx_cons == gem.tx_prod) _ _ (λ e'. (ready, e))
      (λ e'.
        if_any (LeftUp h) (not (is_used (gem.tx (slot gem.tx_cons)))) _ _ (λ e''. (ready, e))
          (λ e''. (
            record {
              rings = λ u.
                  let (prod, cons, flight, head) = ready.rings u in
                  (prod, omega arith, ground arith, head);
              media_only = ready.media_only;
              there = ready.there;
              aligned = ready.aligned;
            },
            e,
          )))

pub transmit_frame-IsUp :
    (lib : BaseMemoryLib) (device : Device) (gem : Gem) (buffer : ℕ) (frame : Mem) (n : ℕ)
    (h : History)
    → IsUp gem
    → IsUp (transmit_frame lib device gem buffer frame n h).0.1
unfolding transmit_frame
transmit_frame-IsUp lib device gem buffer frame n h (ready, e) =
    if_any (LeftUp h) (leb tx_desc_count (in_flight gem)) _ _ (λ e'. (ready, e))
      (λ e'. (
        record {
          rings = λ u.
              let (prod, cons, flight, head) = ready.rings u in
              (omega arith, cons, ground arith, head);
          media_only = ready.media_only;
          there = ready.there;
          aligned = ready.aligned;
        },
        e,
      ))

pub phy_update-IsUp :
    (device : Device) (gem : Gem) (h : History)
    → IsUp gem
    → IsUp (phy_update_config device gem h).0.1
phy_update-IsUp device gem h up = phy_update_config-keeps device IsUp (λ g phy link p. p) gem h up

pub media-IsUp : (gem : Gem) (present : Bool) → IsUp gem → IsUp (set_media gem present)
media-IsUp gem present (ready, e) = (
  record { rings = ready.rings; media_only = λ m. e; there = ready.there; aligned = ready.aligned },
  e,
)

-- The gem behind the receive loop, if it returns.
abbrev pub or_gem : Gem → Option Received → Gem
or_gem gem none = gem
or_gem gem (some r) = r.gem

pub recycled-IsUp : (gem : Gem) → IsUp gem → IsUp (recycle_rx_descriptor gem gem.rx_head)
recycled-IsUp gem (ready, e) = (
  record {
    rings =
        λ u. let (prod, cons, flight, head) = ready.rings u in (prod, cons, flight, omega arith);
    media_only = ready.media_only;
    there = ready.there;
    aligned = ready.aligned;
  },
  e,
)

module _ (lib : BaseMemoryLib) (device : Device) where
  pub receive_frame-IsUp :
      (fuel : ℕ) (old gem : Gem) (buffer : Mem) (size : ℕ) (h : History)
      → IsUp old
      → IsUp gem
      → IsUp (or_gem old (receive_frame lib fuel gem buffer size h).0)
  unfolding receive_frame
  receive_frame-IsUp zero old gem buffer size h up₀ up = up₀
  receive_frame-IsUp (suc fuel) old gem buffer size h up₀ up =
      let d = gem.rx gem.rx_head in
      let next = recycled-IsUp gem up in
      let Q : M (Option Received) → Type 0 = λ m. IsUp (or_gem old (m h).0) in
      if_any Q (not (is_owned d)) _ _ (λ e. up)
        (λ e.
          if_any Q (is_bad d.ctrl) _ _
            (λ e'.
              receive_frame-IsUp fuel old (recycle_rx_descriptor gem gem.rx_head) buffer size h up₀
                next)
            (λ e'. if_any Q (ltb size (frame_length d.ctrl)) _ _ (λ e''. up) (λ e''. next)))

  pub wait_link-IsUp :
      (n : ℕ) (gem : Gem) (h : History) → IsUp gem → IsUp (wait_link device n gem h).0.1
  unfolding wait_link
  wait_link-IsUp zero gem h up = up
  wait_link-IsUp (suc n) gem h up =
      let r = phy_update_config device gem h in
      let up' = phy_update-IsUp device gem h up in
      if_any (LeftUp r.1) (is_success r.0.0) _ _ (λ e. up') (λ e. wait_link-IsUp n r.0.1 r.1 up')

  pub ensure_link-IsUp :
      (gem : Gem) (h : History) → IsUp gem → IsUp (ensure_link lib device gem h).0.1
  ensure_link-IsUp gem h up =
      let r = wait_link device link_tries gem h in
      let up' = wait_link-IsUp link_tries gem h up in
      if_any (LeftUp h) gem.mode.media_present _ _ (λ e. up)
        (λ e. if_any IsUp r.0.0 _ _ (λ e'. media-IsUp r.0.1 true up') (λ e'. up'))
