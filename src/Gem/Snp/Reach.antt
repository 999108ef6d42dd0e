-- ===== src/Gem/Snp/Reach.antt =====
-- Sequences of calls of the Simple Network Protocol and of changes by the hardware, from the state that
-- the driver binding leaves.
use rpi5_uefi_build.Common.{
  ℕ, suc, ◌%◌, ◌≡◌, ◌≢◌, sym, ◌∙◌, Bool, true, false, not, Option, none, some, ltb, ◌==◌, List, [],
  ◌∷◌, Mem, BaseMemoryLib,
}
use rpi5_uefi_build.Common.Mmio.{Device, M, History}
use rpi5_uefi_build.Gem.{Gem, Desc, stopped, initialized, put, max_frame_size, rx_desc_count}
use rpi5_uefi_build.Gem.Phy.{phy_update_config}
use rpi5_uefi_build.Gem.Rx.{Received, receive_frame}
use rpi5_uefi_build.Gem.Snp.{
  set_media, snp_start, snp_stop, snp_initialize, snp_reset, snp_shutdown, snp_receive_filters,
  snp_station_address,
}
use rpi5_uefi_build.Gem.Snp.Traffic.{
  is_success, recycle_if, ensure_link, send, checked, headed, Sent, StatusReply, Outputs, Delivered,
  parse_some, snp_get_status, snp_transmit, snp_receive,
}
use rpi5_uefi_build.Gem.Snp.Ready.{
  IsReady, stopped_apart, if_any, when_any, snp_start-IsReady, snp_stop-IsReady,
  snp_shutdown-IsReady, snp_reset-IsReady,
}
use rpi5_uefi_build.Gem.Snp.Setup.{
  snp_initialize-IsReady, snp_receive_filters-IsReady, snp_station_address-IsReady,
}
use rpi5_uefi_build.Gem.Snp.Up.{
  IsUp, or_gem, get_recycled-IsUp, transmit_frame-IsUp, phy_update-IsUp, media-IsUp,
  receive_frame-IsUp, ensure_link-IsUp,
}

pub data Call : Type 0 where
  start stop : Call
  initialize reset : Call
  shutdown : Call
  receive_filters : ℕ → ℕ → Bool → ℕ → Option (ℕ → Mem) → Call
  station_address : Bool → Option Mem → Call
  get_status : Bool → Bool → Bool → Call
  transmit : Bool → ℕ → ℕ → ℕ → Mem → Option Mem → Option Mem → Option ℕ → Call
  receive : Bool → Outputs → ℕ → Option Mem → Call
  -- The hardware writes a descriptor or the received bytes.
  write_tx : ℕ → Desc → Call
  write_rx : ℕ → Desc → Mem → Call

abbrev pub delivered_gem : Gem → Option Delivered → Gem
delivered_gem gem none = gem
delivered_gem gem (some d) = d.gem

module _ (lib : BaseMemoryLib) (device : Device) (rp1_base : Option ℕ) (pcd : ℕ) where
  -- The private data after a call.
  abbrev pub step : Gem → Call → M Gem
  step gem start h = let r = snp_start gem h in (r.0.1, r.1)
  step gem stop h = let r = snp_stop device gem h in (r.0.1, r.1)
  step gem initialize h = let r = snp_initialize device rp1_base pcd gem h in (r.0.1, r.1)
  step gem reset h = let r = snp_reset device rp1_base pcd gem h in (r.0.1, r.1)
  step gem shutdown h = let r = snp_shutdown device gem h in (r.0.1, r.1)
  step gem (receive_filters on off clear count list) h =
      let r = snp_receive_filters device lib gem on off clear count list h in (r.0.1, r.1)
  step gem (station_address permanent new) h =
      let r = snp_station_address lib gem permanent new h in (r.0.1, r.1)
  step gem (get_status lock interrupts buffer) h =
      let r = snp_get_status lib device lock interrupts buffer gem h in (r.0.gem, r.1)
  step gem (transmit lock header size address frame src dest protocol) h =
      let r = snp_transmit lib device lock gem header size address frame src dest protocol h in
      (r.0.gem, r.1)
  step gem (receive lock out size buffer) h =
      let r = snp_receive lib device lock gem out size buffer h in (delivered_gem gem r.0, r.1)
  step gem (write_tx i d) h = (record gem { tx = put gem.tx i d }, h)
  step gem (write_rx i d bytes) h = (record gem { rx = put gem.rx i d; rx_data = bytes }, h)

  abbrev pub run : Gem → List Call → M Gem
  run gem [] h = (gem, h)
  run gem (call ∷ calls) h = let r = step gem call h in run r.0 calls r.1

module _ (lib : BaseMemoryLib) (device : Device) (gem : Gem) (ready : IsReady gem) where
  recycle_if-IsUp :
      (asked : Bool) (g : Gem) (h : History) → IsUp g → IsUp (recycle_if asked g h).0.1
  recycle_if-IsUp true g h up = get_recycled-IsUp g h up
  recycle_if-IsUp false g h up = up

  get_status-IsReady :
      (lock interrupts buffer : Bool) (h : History)
      → IsReady (snp_get_status lib device lock interrupts buffer gem h).0.gem
  unfolding snp_get_status
  get_status-IsReady lock interrupts buffer h =
      let Q : M StatusReply → Type 0 = λ m. IsReady (m h).0.gem in
      let link = phy_update_config device gem h in
      when_any Q gem.mode.state _ _ (λ e. ready)
        (λ e.
          if_any Q lock _ _
            (λ l.
              (recycle_if-IsUp buffer (set_media link.0.1 (is_success link.0.0)) link.1 (
                media-IsUp link.0.1 (is_success link.0.0)
                  (phy_update-IsUp device gem h (ready, e)))).0)
            (λ l. ready))

  send-IsReady :
      (lock : Bool) (address : ℕ) (original frame : Mem) (size : ℕ) (h : History)
      → gem.mode.state ≡ initialized
      → IsReady (send lib device lock gem address original frame size h).0.gem
  send-IsReady lock address original frame size h e =
      let link = ensure_link lib device gem h in
      let up = ensure_link-IsUp lib device gem h (ready, e) in
      let Q : M Sent → Type 0 = λ m. IsReady (m link.1).0.gem in
      if_any Q (not link.0.0) _ _ (λ l. up.0)
        (λ l.
          if_any Q (not lock) _ _ (λ k. up.0)
            (λ k. (transmit_frame-IsUp lib device link.0.1 address frame size link.1 up).0))

  checked-IsReady :
      (lock : Bool) (address : ℕ) (frame : Mem) (size : ℕ) (whole : Option Mem) (h : History)
      → gem.mode.state ≡ initialized
      → IsReady (checked lib device lock gem address frame size whole h).0.gem
  checked-IsReady lock address frame size none h e = ready
  checked-IsReady lock address frame size (some whole) h e =
      let Q : M Sent → Type 0 = λ m. IsReady (m h).0.gem in
      if_any Q (ltb size gem.mode.media_header_size) _ _ (λ l. ready)
        (λ l.
          if_any Q (ltb max_frame_size size) _ _ (λ k. ready)
            (λ k. send-IsReady lock address frame whole size h e))

  transmit-IsReady :
      (lock : Bool) (header size address : ℕ) (frame : Mem) (src dest : Option Mem)
      (protocol : Option ℕ) (h : History)
      → IsReady
          (snp_transmit lib device lock gem header size address frame src dest protocol h).0.gem
  unfolding snp_transmit
  transmit-IsReady lock header size address frame src dest protocol h =
      let Q : M Sent → Type 0 = λ m. IsReady (m h).0.gem in
      if_any Q (address == 0) _ _ (λ l. ready)
        (λ l.
          when_any Q gem.mode.state _ _ (λ e. ready)
            (λ e.
              checked-IsReady lock address frame size
                (headed lib gem frame header src dest protocol) h e))

  parse_some-IsReady :
      (out : Outputs) (o : Option Received)
      → IsReady (or_gem gem o)
      → IsReady (delivered_gem gem (parse_some lib device out o))
  parse_some-IsReady out none p = p
  parse_some-IsReady out (some r) p =
      if_any (λ (d : Delivered). IsReady d.gem) (is_success r.status) _ _ (λ e. p) (λ e. p)

  receive-IsReady :
      (lock : Bool) (out : Outputs) (size : ℕ) (buffer : Option Mem) (h : History)
      → IsReady (delivered_gem gem (snp_receive lib device lock gem out size buffer h).0)
  unfolding snp_receive
  receive-IsReady lock out size none h = ready
  receive-IsReady lock out size (some buffer) h =
      let Q : M (Option Delivered) → Type 0 = λ m. IsReady (delivered_gem gem (m h).0) in
      when_any Q gem.mode.state _ _ (λ e. ready)
        (λ e.
          if_any Q lock _ _
            (λ l.
              parse_some-IsReady out (receive_frame lib (suc rx_desc_count) gem buffer size h).0
                (receive_frame-IsUp lib device (suc rx_desc_count) gem gem buffer size h (ready, e)
                  (ready, e)).0)
            (λ l. ready))

module _ (lib : BaseMemoryLib) (device : Device) (rp1_base : Option ℕ) (pcd : ℕ) where
  step-IsReady :
      (gem : Gem) (call : Call) (h : History)
      → IsReady gem
      → IsReady (step lib device rp1_base pcd gem call h).0
  step-IsReady gem start h ready = snp_start-IsReady gem ready h
  step-IsReady gem stop h ready = snp_stop-IsReady device gem ready h
  step-IsReady gem initialize h ready = snp_initialize-IsReady device gem ready rp1_base pcd h
  step-IsReady gem reset h ready = snp_reset-IsReady device gem ready rp1_base pcd h
  step-IsReady gem shutdown h ready = snp_shutdown-IsReady device gem ready h
  step-IsReady gem (receive_filters on off clear count list) h ready =
      snp_receive_filters-IsReady device gem ready lib on off clear count list h
  step-IsReady gem (station_address permanent new) h ready =
      snp_station_address-IsReady lib gem permanent new ready h
  step-IsReady gem (get_status lock interrupts buffer) h ready =
      get_status-IsReady lib device gem ready lock interrupts buffer h
  step-IsReady gem (transmit lock header size address frame src dest protocol) h ready =
      transmit-IsReady lib device gem ready lock header size address frame src dest protocol h
  step-IsReady gem (receive lock out size buffer) h ready =
      receive-IsReady lib device gem ready lock out size buffer h
  step-IsReady gem (write_tx i d) h ready = ready
  step-IsReady gem (write_rx i d bytes) h ready = ready

  run-keeps :
      (calls : List Call) (gem : Gem) (h : History)
      → IsReady gem
      → IsReady (run lib device rp1_base pcd gem calls h).0
  run-keeps [] gem h ready = ready
  run-keeps (call ∷ calls) gem h ready =
      let r = step lib device rp1_base pcd gem call h in
      run-keeps calls r.0 r.1 (step-IsReady gem call h ready)

  -- From a stopped interface without a link whose rings and buffers are allocated and
  -- 4-aligned: after any sequence of calls of the Simple Network Protocol and of writes by the
  -- hardware to descriptors and received bytes, an initialized interface has its ring cursors
  -- in range and at most eight frames in flight, and only an initialized interface reports a
  -- link.
  pub reachable-IsReady :
      (gem : Gem) (calls : List Call) (h : History)
      → gem.mode.state ≡ stopped
      → gem.mode.media_present ≡ false
      → gem.tx_ring ≢ 0
      → gem.rx_buffers % 4 ≡ 0
      → IsReady (run lib device rp1_base pcd gem calls h).0
  reachable-IsReady gem calls h state media there aligned = run-keeps calls gem h (record {
    rings = λ e. absurd (stopped_apart (sym state ∙ e));
    media_only = λ m. absurd (cc);
    there = there;
    aligned = aligned;
  })
